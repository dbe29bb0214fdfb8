-- ===== src/Vm/Machines.antt =====
-- Platform::CreateVM, FreeVM and DestroyVMs of modules/core/src/platform/platform.cpp. A machine of
-- the platform's list is its address.
use virt.Base.{ℕ, ◌==◌, Bool, true, false, if◌then◌else◌, Option, none, some, List, [], ◌∷◌, ◌++◌}

-- `created` is what CreateVMImpl returns, `none` for null. The result is the new machine, if any.
unfoldable pub create_vm : Option ℕ → List ℕ → Option ℕ × List ℕ
create_vm none vms = (none, vms)
create_vm (some vm) vms = (some vm, vms ++ vm ∷ [])

unfoldable pub free_vm : ℕ → List ℕ → Bool × List ℕ
free_vm vm [] = (false, [])
free_vm vm (v ∷ vms) =
    let (found, rest) = free_vm vm vms in if v == vm then (true, vms) else (found, v ∷ rest)

unfoldable pub destroy_vms : List ℕ → List ℕ
destroy_vms vms = []
