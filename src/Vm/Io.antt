-- ===== src/Vm/Io.antt =====
-- modules/core/include/virt86/vm/io.hpp, and the registration of callbacks in vm.cpp. A callback
-- acts on an environment `W`; the context pointer is its address.
use virt.Base.{ℕ, Option, none, some}

abbrev pub Read : Type 0 → Type 0
Read W = ℕ → ℕ → ℕ → W → ℕ × W

abbrev pub Write : Type 0 → Type 0
Write W = ℕ → ℕ → ℕ → ℕ → W → W

abbrev or_null {ℓ} : {A : Type ℓ} → Option A → A → A
or_null none null = null
or_null (some f) null = f

-- The functions for ports, those for memory-mapped I/O, and the context that they are given.
pub record IoHandlers (W : Type 0) : Type 0 where
  pub io_read_func : Read W
  pub io_write_func : Write W
  pub mmio_read_func : Read W
  pub mmio_write_func : Write W
  pub context : ℕ

module _ {W : Type 0} where
  pub null_io_read : ℕ → ℕ → ℕ → W → ℕ × W
  null_io_read context port size w = (0, w)

  pub null_io_write : ℕ → ℕ → ℕ → ℕ → W → W
  null_io_write context port size value w = w

  pub null_mmio_read : ℕ → ℕ → ℕ → W → ℕ × W
  null_mmio_read context address size w = (0, w)

  pub null_mmio_write : ℕ → ℕ → ℕ → ℕ → W → W
  null_mmio_write context address size value w = w

  -- What the constructor of VirtualMachine sets.
  pub default_handlers : IoHandlers W
  unfolding null_io_read null_io_write null_mmio_read null_mmio_write
  default_handlers = record {
    io_read_func = null_io_read;
    io_write_func = null_io_write;
    mmio_read_func = null_mmio_read;
    mmio_write_func = null_mmio_write;
    context = 0;
  }

  -- `none` is nullptr.
  pub register_io_read_callback : IoHandlers W → Option (Read W) → IoHandlers W
  unfolding null_io_read
  register_io_read_callback h func = record h { io_read_func = or_null func null_io_read }

  pub register_io_write_callback : IoHandlers W → Option (Write W) → IoHandlers W
  unfolding null_io_write
  register_io_write_callback h func = record h { io_write_func = or_null func null_io_write }

  pub register_mmio_read_callback : IoHandlers W → Option (Read W) → IoHandlers W
  unfolding null_mmio_read
  register_mmio_read_callback h func = record h { mmio_read_func = or_null func null_mmio_read }

  pub register_mmio_write_callback : IoHandlers W → Option (Write W) → IoHandlers W
  unfolding null_mmio_write
  register_mmio_write_callback h func = record h { mmio_write_func = or_null func null_mmio_write }

  pub register_io_context : IoHandlers W → ℕ → IoHandlers W
  register_io_context h context = record h { context = context }

  unfoldable pub io_read : IoHandlers W → ℕ → ℕ → W → ℕ × W
  io_read h port size w = h.io_read_func h.context port size w

  unfoldable pub io_write : IoHandlers W → ℕ → ℕ → ℕ → W → W
  io_write h port size value w = h.io_write_func h.context port size value w

  unfoldable pub mmio_read : IoHandlers W → ℕ → ℕ → W → ℕ × W
  mmio_read h address size w = h.mmio_read_func h.context address size w

  unfoldable pub mmio_write : IoHandlers W → ℕ → ℕ → ℕ → W → W
  mmio_write h address size value w = h.mmio_write_func h.context address size value w
