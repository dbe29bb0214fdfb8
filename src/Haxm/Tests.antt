-- ===== src/Haxm/Tests.antt =====
-- Output with the direction flag on HAXM, and how many registers a driver is given.
use virt.Base.{ℕ, ◌+◌, none, length, true, false, ◌≡◌, refl, some, List, [], ◌∷◌}
use virt.Vm.Region.{Bytes}
use virt.Vm.Io.{IoHandlers, io_write}
use virt.Vp.Layout.{load, store}
use virt.Kvm.Exit.Items.{io_writes}
use virt.Haxm.State.{ExitStatus, Tunnel}
use virt.Haxm.Msrs.{MsrDriver, set_loop, set_msrs}
use virt.Haxm.Exit.Items.{items_down}

-- Callbacks that keep the values that they are given.
abbrev keeping : IoHandlers (List ℕ)
keeping = record {
  io_read_func = λ context port size log. (0, log);
  io_write_func = λ context port size value log. value ∷ log;
  mmio_read_func = λ context address size log. (0, log);
  mmio_write_func = λ context address size value log. log;
  context = 0;
}

abbrev three_bytes : Bytes
three_bytes = store (λ i. 0) 0 3 0x332211

abbrev downwards : Tunnel
downwards = record {
  exit_status = ExitStatus.io;
  out = true;
  df = true;
  size = 1;
  port = 0x80;
  count = 3;
  dr6 = 0;
  rip = 0;
  ready_for_interrupt_injection = 1;
  request_interrupt_window = 0;
}

-- The last byte first.
written_down : io_writes keeping 0x80 1 (items_down three_bytes 1 3) [] ≡ 0x11 ∷ 0x22 ∷ 0x33 ∷ []
unfolding io_write load store
written_down = refl

-- A driver that counts the registers that it is given.
abbrev counting : MsrDriver ℕ
counting = record {
  get_msr_data = λ es s. some (λ i. i);
  set_msr_data = λ es s. (true, s + length es);
}

forty : set_msrs counting false (λ i. (i, 0)) 40 0 ≡ some (none, 64)
unfolding set_msrs set_loop
forty = refl
