-- ===== src/Haxm/Exit.antt =====
-- What follows an exit of the guest on HAXM: HandleExecResult, HandleIO and HandleFastMMIO of
-- modules/haxm/src/common/haxm_vp.cpp. A failed assertion is `none`.
pub mod Items
use virt.Base.{
  ℕ, zero, suc, ◌+◌, ◌-◌, ◌*◌, ◌%◌, ◌^◌, ◌==◌, ltb, Bool, true, false, if◌then◌else◌, Option, none,
  some, ◌>>=◌,
}
use virt.Vm.Region.{Bytes}
use virt.Vm.Io.{IoHandlers, io_read, io_write, mmio_read, mmio_write}
use virt.Vp.Layout.{load, store}
use virt.Vp.Status.{VmExitReason}
use virt.Kvm.Exit.{sized}
use virt.Haxm.State.{ExitStatus, Tunnel, HaxmVp}

module _ {W : Type 0} (h : IoHandlers W) where
  -- One turn of the loop of HandleIO, at the pointer's offset.
  unfoldable pub io_item : Tunnel → ℕ → Bytes → W → Option (Bytes × W)
  unfolding io_read io_write
  io_item t at page w =
      let (value, w') = io_read h t.port t.size w in
      if sized t.size
      then (if t.out
          then some (page, io_write h t.port t.size (load page at t.size) w)
          else some (store page at t.size value, w'))
      else none

  -- With the direction flag the pointer goes down; after the last item it is not used again.
  unfoldable pub io_items : Tunnel → ℕ → ℕ → Bytes → W → Option (Bytes × W)
  unfolding io_item
  io_items t at zero page w = some (page, w)
  io_items t at (suc n) page w =
      let next = if t.df then at - t.size else at + t.size in
      io_item t at page w >>= λ (page', w'). io_items t next n page' w'

  unfoldable pub handle_io : Tunnel → Bytes → W → Option (Bytes × W)
  unfolding io_items
  handle_io t page w = io_items t (if t.df then t.size * (t.count - 1) else 0) t.count page w

  -- hax_fastmmio lies in the same memory: gpa, value or gpa2, size and direction.
  unfoldable pub handle_fast_mmio : Bytes → W → Bytes × W
  unfolding mmio_read mmio_write load store
  handle_fast_mmio page w =
      let gpa = load page 0 8 in
      let value_or_gpa2 = load page 8 8 in
      let size = load page 16 1 in
      let direction = load page 17 1 in
      let (value, w') = mmio_read h gpa size w in
      if ltb direction 2
      then (if direction == 1
          then (page, mmio_write h gpa size value_or_gpa2 w)
          else (store page 8 8 value, w'))
      else (page, mmio_write h value_or_gpa2 size value w')

  abbrev pub exit_with : {R F K : Type 0} → VmExitReason → HaxmVp R F K W → Option (HaxmVp R F K W)
  exit_with reason x = some (record x { exit_info = record x.exit_info { reason = reason } })

  abbrev pub handle_exit : {R F K : Type 0} → ExitStatus → HaxmVp R F K W → Option (HaxmVp R F K W)
  handle_exit ExitStatus.hlt x = exit_with VmExitReason.hlt x
  handle_exit ExitStatus.interrupt x = exit_with VmExitReason.interrupt x
  handle_exit ExitStatus.paused x = exit_with VmExitReason.normal x
  handle_exit ExitStatus.mmio x = exit_with VmExitReason.error x
  handle_exit ExitStatus.realmode x = exit_with VmExitReason.error x
  handle_exit ExitStatus.unknown x = exit_with VmExitReason.error x
  handle_exit ExitStatus.statechange x = exit_with VmExitReason.shutdown x
  handle_exit ExitStatus.io x = handle_io x.tunnel x.io_tunnel x.world >>= λ (page, w).
      exit_with VmExitReason.pio (record x { io_tunnel = page; world = w })
  handle_exit ExitStatus.fast_mmio x =
      let (page, w) = handle_fast_mmio x.io_tunnel x.world in
      exit_with VmExitReason.mmio (record x { io_tunnel = page; world = w })
  handle_exit ExitStatus.debug x =
      if x.tunnel.dr6 % 2 ^ 4 == 0
      then exit_with VmExitReason.software_breakpoint x
      else exit_with VmExitReason.hardware_breakpoint x
  handle_exit ExitStatus.other x = exit_with VmExitReason.unhandled x

  unfoldable pub handle_exec_result : {R F K : Type 0} → HaxmVp R F K W → Option (HaxmVp R F K W)
  unfolding handle_io handle_fast_mmio
  handle_exec_result x = handle_exit x.tunnel.exit_status (record x { regs_dirty = true })
