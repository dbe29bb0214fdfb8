-- ===== src/Whpx/Tests.antt =====
-- What the WHPX backend does with a hypervisor that keeps its registers in a function.
use virt.Base.{ℕ, ◌≡◌, refl, true, false, none, List, [], ◌∷◌, arith}
use virt.Vp.Layout.{load}
use virt.Vp.Reg.{Reg, number, reg_between}
use virt.Vp.Registers.{RegValue, write_loop}
use virt.Vp.Registers.Bulk.{nil, cons}
use virt.Kvm.Regs.{Gpr}
use virt.Util.{set_low_byte, set_high_byte}
use virt.Kvm.Place.{high_byte}
use virt.Kvm.Switch.Merge.{merged}
use virt.Kvm.Switch.RoundTrip.{Agree}
use virt.Whpx.Names.{Name, gpr, apic_base, pat, xmm, xmm_kind}
use virt.Whpx.NameCases.{translate_register_name}
use virt.Whpx.IntoCases.{into_kind}
use virt.Whpx.Values.{translate_into, value_into}
use virt.Whpx.Values.RoundTrip.{parts}
use virt.Whpx.Example.{Plain, nothing, plain, plain-Layout, kept_registers, keeping, storing}
use virt.Whpx.Registers.{reg_read, reg_write, reg_write_array}
use virt.Whpx.Registers.Single.{reg_read-reg_write}
use virt.Whpx.Registers.General.{general_file, reg_read-general, reg_write-general}
use virt.Whpx.Registers.Sequence.{reg_write_array-write_loop}
use virt.Whpx.Msrs.{translate_msr, get_msrs, set_msrs}
use virt.Whpx.Msrs.RoundTrip.{get_msrs-set_msrs}

-- Every general register is 0x1122334455667788.
abbrev before : Name → Plain
before n = record nothing { word = 0x1122_3344_5566_7788 }

abbrev byte_value : ℕ → RegValue
byte_value b i = b

abbrev zero_value : RegValue
zero_value i = 0

reg_read-reg_write_example :
    ((reg_write plain kept_registers true true Reg.xmm3 (byte_value 7) before).0 ≡ none)
    × ((out : RegValue) × (reg_read plain kept_registers true true
            (reg_write plain kept_registers true true Reg.xmm3 (byte_value 7) before).1
            Reg.xmm3
            zero_value
          ≡ (none, out ∷ []))
        × Agree out (byte_value 7) (parts xmm_kind))
unfolding translate_register_name into_kind
reg_read-reg_write_example =
    reg_read-reg_write plain plain-Layout kept_registers keeping true Reg.xmm3 (xmm 3) xmm_kind
      (byte_value 7) zero_value before refl refl

-- A read of AH.
reg_read-general_example :
    (out : RegValue) × (reg_read plain kept_registers true true before Reg.ah zero_value
      ≡ (none, out ∷ []))
    × (load out 0 8 ≡ 0x1122_3344_5566_7788)
unfolding reg_between number
reg_read-general_example =
    reg_read-general plain plain-Layout kept_registers keeping true Reg.ah (high_byte Gpr.rax)
      zero_value before refl

reg_write-general_example :
    ((reg_write plain kept_registers true true Reg.ah (byte_value 7) before).0 ≡ none)
    × (general_file plain plain-Layout kept_registers keeping true
          (reg_write plain kept_registers true true Reg.ah (byte_value 7) before).1
          Gpr.rax
        ≡ merged
            (high_byte Gpr.rax)
            (byte_value 7)
            (general_file plain plain-Layout kept_registers keeping true before)
            Gpr.rax)
unfolding reg_between number
reg_write-general_example =
    reg_write-general plain plain-Layout kept_registers keeping true Reg.ah (high_byte Gpr.rax)
      (byte_value 7) before Gpr.rax refl

-- AL and BL are in different registers.
abbrev two_bytes : List Reg
two_bytes = Reg.al ∷ Reg.bl ∷ []

reg_write_array-write_loop_example :
    let vs = byte_value 1 ∷ byte_value 2 ∷ [] in
    ((reg_write_array plain kept_registers true false true two_bytes vs before).0 ≡ none)
    × ((write_loop (reg_write plain kept_registers true true) two_bytes vs before).0 ≡ none)
    × ((reg_write_array plain kept_registers true false true two_bytes vs before).1
        ≡ (write_loop (reg_write plain kept_registers true true) two_bytes vs before).1)
unfolding translate_register_name
reg_write_array-write_loop_example =
    reg_write_array-write_loop plain plain-Layout kept_registers keeping true two_bytes
      (gpr Gpr.rax ∷ gpr Gpr.rbx ∷ []) (byte_value 1 ∷ byte_value 2 ∷ []) before
      (cons refl (cons refl nil)) refl ((omega arith, tt), (tt, tt))

-- AL and AH are in the same register, and of a write to both at once only the second is there.
lost_byte :
    let vs = byte_value 1 ∷ byte_value 2 ∷ [] in
    let regs = Reg.al ∷ Reg.ah ∷ [] in
    ((reg_write_array plain kept_registers true false true regs vs before).1 (gpr Gpr.rax)).word
    ≡ 0x1122_3344_5566_0288
unfolding translate_register_name reg_write_array translate_into value_into into_kind set_low_byte
    set_high_byte load
lost_byte = refl

get_msrs-set_msrs_example :
    ((set_msrs plain kept_registers true nothing false true
        (0x1b ∷ 0x277 ∷ [])
        (5 ∷ 6 ∷ [])
        before).0
      ≡ none)
    × (get_msrs plain kept_registers true false true
          (set_msrs plain kept_registers true nothing false true
            (0x1b ∷ 0x277 ∷ [])
            (5 ∷ 6 ∷ [])
            before).1
          (0x1b ∷ 0x277 ∷ [])
          (0 ∷ 0 ∷ [])
        ≡ (none, 5 ∷ 6 ∷ []))
unfolding translate_msr
get_msrs-set_msrs_example =
    get_msrs-set_msrs plain plain-Layout kept_registers storing true nothing (0x1b ∷ 0x277 ∷ [])
      (apic_base ∷ pat ∷ []) (5 ∷ 6 ∷ []) (0 ∷ 0 ∷ []) before (cons refl (cons refl nil))
      (refl, (refl, tt)) ((omega arith, tt), (tt, tt)) refl refl (omega arith, (omega arith, tt))
      refl
