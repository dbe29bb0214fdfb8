-- ===== src/Kvm/Exit.antt =====
-- What follows an exit of the guest: HandleExecResult, HandleException, HandleIO and HandleMMIO of
-- modules/kvm/src/kvm_vp.cpp. A failed assertion, and a loop that never ends, are `none`.
pub mod Items
use virt.Base.{
  ℕ, zero, suc, ◌+◌, ◌%◌, ◌^◌, ◌==◌, ltb, Bool, true, false, ◌||◌, if◌then◌else◌, Option, none,
  some, ◌>>=◌,
}
use virt.Vm.Region.{Bytes}
use virt.Vm.Io.{IoHandlers, io_read, io_write, mmio_read, mmio_write}
use virt.Vp.Layout.{load, store}
use virt.Vp.Status.{VmExitReason}
use virt.Kvm.State.{ExitReason, KvmRun, ExitInfo, Exec}

unfoldable pub handle_exception : KvmRun → ExitInfo → ExitInfo
handle_exception r info = record { reason = VmExitReason.exception; exception_code = r.exception }

-- The sizes of the switches in HandleIO.
abbrev pub sized : ℕ → Bool
sized n = n == 1 || n == 2 || n == 4

module _ {W : Type 0} (h : IoHandlers W) where
  -- One turn of the loop of HandleIO, at the pointer's offset.
  unfoldable pub io_item : KvmRun → ℕ → Bytes → W → Option (Bytes × W)
  unfolding io_read io_write
  io_item r at page w =
      let (value, w') = io_read h r.port r.size w in
      if sized r.size
      then (if r.out
          then some (page, io_write h r.port r.size (load page at r.size) w)
          else some (store page at r.size value, w'))
      else none

  unfoldable pub io_items : KvmRun → ℕ → ℕ → Bytes → W → Option (Bytes × W)
  unfolding io_item
  io_items r at zero page w = some (page, w)
  io_items r at (suc n) page w =
      io_item r at page w >>= λ (page', w'). io_items r (at + r.size) n page' w'

  -- The counter has 16 bits.
  unfoldable pub handle_io : KvmRun → W → Option (KvmRun × W)
  unfolding io_items
  handle_io r w =
      if ltb r.count (2 ^ 16)
      then (io_items r r.data_offset r.count r.page w >>= λ (page, w').
          some (record r { page = page }, w'))
      else none

  unfoldable pub handle_mmio : KvmRun → W → Option (KvmRun × W)
  unfolding mmio_read mmio_write
  handle_mmio r w =
      let (value, w') = mmio_read h r.phys_addr r.len w in
      if r.is_write
      then some (r, mmio_write h r.phys_addr r.len (load r.data_bytes 0 8) w)
      else if sized r.len || r.len == 8
      then some (record r { data_bytes = store r.data_bytes 0 r.len value }, w')
      else none

  -- One case of the switch in HandleExecResult.
  abbrev pub exit_with : {K : Type 0} → VmExitReason → Exec K W → Option (Exec K W)
  exit_with reason x = some (record x { exit_info = record x.exit_info { reason = reason } })

  abbrev pub handled :
      {K : Type 0} → VmExitReason → Option (KvmRun × W) → Exec K W → Option (Exec K W)
  handled reason done x = done >>= λ (r, w). exit_with reason (record x { kvm_run = r; world = w })

  abbrev pub handle_exit : {K : Type 0} → ExitReason → Exec K W → Option (Exec K W)
  handle_exit ExitReason.hlt x = exit_with VmExitReason.hlt x
  handle_exit ExitReason.intr x = exit_with VmExitReason.normal x
  handle_exit ExitReason.irq_window_open x = exit_with VmExitReason.interrupt x
  handle_exit ExitReason.exception x =
      some (record x { exit_info = handle_exception x.kvm_run x.exit_info })
  handle_exit ExitReason.shutdown x = exit_with VmExitReason.shutdown x
  handle_exit ExitReason.unknown x = exit_with VmExitReason.error x
  handle_exit ExitReason.io x = handled VmExitReason.pio (handle_io x.kvm_run x.world) x
  handle_exit ExitReason.mmio x = handled VmExitReason.mmio (handle_mmio x.kvm_run x.world) x
  handle_exit ExitReason.debug x =
      if x.kvm_run.dr6 % 2 ^ 4 == 0
      then exit_with VmExitReason.software_breakpoint x
      else exit_with VmExitReason.hardware_breakpoint x
  handle_exit ExitReason.other x = exit_with VmExitReason.unhandled x

  unfoldable pub handle_exec_result : {K : Type 0} → Exec K W → Option (Exec K W)
  unfolding handle_io handle_mmio handle_exception
  handle_exec_result x =
      handle_exit x.kvm_run.exit_reason (record x { vcpu = record x.vcpu { regs_dirty = true } })
