-- ===== src/Haxm/Registers/Kept.antt =====
-- What RegWrite has written, RegRead gives back.
use mathlib.Core.Path.{subst}
use virt.Base.{◌^◌, ◌<◌, ◌≡◌, refl, sym, ap, ◌∙◌, Bool, true, false, none, some, arith}
use virt.Vm.Io.{IoHandlers}
use virt.Vp.Reg.{Reg}
use virt.Vp.Registers.{RegValue}
use virt.Kvm.Regs.{Gpr}
use virt.Kvm.Switch.RoundTrip.{Agree}
use virt.Haxm.Regs.{VcpuState, FxLayout}
use virt.Haxm.State.{SysImpl, HaxmVp}
use virt.Haxm.Run.{refresh_registers}
use virt.Haxm.Msrs.{MsrDriver}
use virt.Haxm.Place.{Place}
use virt.Haxm.WriteCases.{write_case}
use virt.Haxm.Switch.{haxm_reg_read, haxm_reg_write}
use virt.Haxm.Switch.RoundTrip.{kept_value, fields, haxm_reg_read-haxm_reg_write}
use virt.Haxm.Registers.{cache_of, with_cache, reg_read, reg_write}

module _ {K W : Type 0} (sys : SysImpl VcpuState FxLayout K) (driver : MsrDriver K)
    (h : IoHandlers W) (msr : Bool) where
  -- After a refresh that succeeds the structures are up to date.
  refresh_registers-clean :
      (x : HaxmVp VcpuState FxLayout K W)
      → (refresh_registers sys h x).0 ≡ true
      → (refresh_registers sys h x).1.regs_dirty ≡ false
  unfolding refresh_registers
  refresh_registers-clean x e = grind arith

  refresh_registers-same :
      (x : HaxmVp VcpuState FxLayout K W)
      → x.regs_dirty ≡ false
      → refresh_registers sys h x ≡ (true, x)
  unfolding refresh_registers
  refresh_registers-same x e = rw (e, refresh_registers) refl

  -- If the refresh of the registers succeeds and the general registers are then of 64 bits, for
  -- every register that HaxmRegWrite accepts: RegWrite returns OK, RegRead of the same register
  -- after it returns OK, and gives the value that was written in each field that belongs to the
  -- register's width or kind. The flags come back as fixupFlags of that value; of EFER only the
  -- statuses are stated if it is an MSR, and the lower half if it is not.
  pub reg_read-kept_value :
      (reg : Reg) (place : Place) (v w : RegValue) (x : HaxmVp VcpuState FxLayout K W)
      → (refresh_registers sys h x).0 ≡ true
      → ((r : Gpr) → (refresh_registers sys h x).1.regs.regs r < 2 ^ 64)
      → write_case reg ≡ some place
      → let x' = (reg_write sys driver h msr reg v x).1 in
        ((reg_write sys driver h msr reg v x).0 ≡ none)
        × ((reg_read sys driver h msr reg w x').0 ≡ none)
        × Agree (reg_read sys driver h msr reg w x').2 (kept_value place v) (fields msr place)
  unfolding reg_read reg_write
  reg_read-kept_value reg place v w x fresh words e =
      let y = (refresh_registers sys h x).1 in
      let (done, read, agrees) =
        haxm_reg_read-haxm_reg_write driver msr reg place v w (cache_of y) words e in
      let c = (haxm_reg_write driver msr reg v (cache_of y)).1 in
      let wrote : reg_write sys driver h msr reg v x ≡ (none, with_cache y c) =
        rw (fresh, reg_write) (ap (λ s. (s, with_cache y c)) done) in
      let same = refresh_registers-same (with_cache y c) (refresh_registers-clean x fresh) in
      let got : reg_read sys driver h msr reg w (with_cache y c)
          ≡ (none, with_cache y c, (haxm_reg_read driver msr c reg w).1) =
        rw (same, reg_read)
          (ap (λ s. (s, with_cache y c, (haxm_reg_read driver msr c reg w).1)) read) in
      let after = ap (λ o. reg_read sys driver h msr reg w o.1) wrote ∙ got in
      (
        ap (λ o. o.0) wrote,
        ap (λ o. o.0) after,
        subst (λ t. Agree t (kept_value place v) (fields msr place)) (sym (ap (λ o. o.2) after))
            agrees,
      )
