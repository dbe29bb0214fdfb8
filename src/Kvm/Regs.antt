-- ===== src/Kvm/Regs.antt =====
-- The register structures of KVM that the backend fills in, and modules/kvm/src/kvm_helpers.cpp, which
-- moves segments, tables and floating point registers between them and a RegValue.
pub mod Laws
use virt.Base.{
  ℕ, ◌+◌, ◌*◌, ◌/◌, ◌%◌, ◌^◌, ◌==◌, ltb, Bool, true, false, if◌then◌else◌, bits, ◌<<<◌, Option,
  none, some,
}
use virt.Vm.Region.{Bytes}
use virt.Vp.Layout.{load, store}
use virt.Vp.Registers.{RegValue}

-- The fields of kvm_regs, in the order of KVM's header.
pub data Gpr : Type 0 where
  rax rbx rcx rdx rsi rdi rsp rbp r8 r9 r10 r11 r12 r13 r14 r15 rip rflags : Gpr

abbrev pub gpr_number : Gpr → ℕ
gpr_number rax = 0
gpr_number rbx = 1
gpr_number rcx = 2
gpr_number rdx = 3
gpr_number rsi = 4
gpr_number rdi = 5
gpr_number rsp = 6
gpr_number rbp = 7
gpr_number r8 = 8
gpr_number r9 = 9
gpr_number r10 = 10
gpr_number r11 = 11
gpr_number r12 = 12
gpr_number r13 = 13
gpr_number r14 = 14
gpr_number r15 = 15
gpr_number rip = 16
gpr_number rflags = 17

abbrev pub KvmRegs : Type 0
KvmRegs = Gpr → ℕ

-- kvm_segment, without its field `unusable`, which the backend never names.
pub record KvmSegment : Type 0 where
  pub base : ℕ
  pub limit : ℕ
  pub selector : ℕ
  pub type : ℕ
  pub present : ℕ
  pub dpl : ℕ
  pub db : ℕ
  pub s : ℕ
  pub l : ℕ
  pub g : ℕ
  pub avl : ℕ

pub record KvmDtable : Type 0 where
  pub base : ℕ
  pub limit : ℕ

pub data SegmentName : Type 0 where
  cs ds es fs gs ss tr ldt : SegmentName

pub data TableName : Type 0 where
  gdt idt : TableName

pub data Control : Type 0 where
  cr0 cr2 cr3 cr4 efer : Control

abbrev pub segment_number : SegmentName → ℕ
segment_number cs = 0
segment_number ds = 1
segment_number es = 2
segment_number fs = 3
segment_number gs = 4
segment_number ss = 5
segment_number tr = 6
segment_number ldt = 7

abbrev pub table_number : TableName → ℕ
table_number gdt = 0
table_number idt = 1

abbrev pub control_number : Control → ℕ
control_number cr0 = 0
control_number cr2 = 1
control_number cr3 = 2
control_number cr4 = 3
control_number efer = 4

pub record KvmSregs : Type 0 where
  pub segments : SegmentName → KvmSegment
  pub tables : TableName → KvmDtable
  pub controls : Control → ℕ

-- `dr` has db[0] to db[3] at 0 to 3, and dr6 and dr7.
abbrev pub KvmDebugRegs : Type 0
KvmDebugRegs = ℕ → ℕ

pub record KvmFpu : Type 0 where
  pub fpr : ℕ → Bytes
  pub fcw : ℕ
  pub fsw : ℕ
  pub ftwx : ℕ
  pub last_opcode : ℕ
  pub last_ip : ℕ
  pub last_dp : ℕ
  pub xmm : ℕ → Bytes
  pub mxcsr : ℕ

-- A structure with one of its fields set, the field told from others by its number.
abbrev pub set_at {ℓ κ} : {I : Type ℓ} {A : Type κ} → (I → ℕ) → (I → A) → I → A → I → A
set_at number f i a j = if number i == number j then a else f j

-- LoadSegment: the attributes' fields are stored into a word that was set to 0, so that its four
-- unnamed bits stay 0.
unfoldable pub attributes_of : KvmSegment → ℕ
attributes_of d =
    d.type % 2 ^ 4
    + (d.s % 2) * 2 ^ 4
    + (d.dpl % 2 ^ 2) * 2 ^ 5
    + (d.present % 2) * 2 ^ 7
    + (d.avl % 2) * 2 ^ 12
    + (d.l % 2) * 2 ^ 13
    + (d.db % 2) * 2 ^ 14
    + (d.g % 2) * 2 ^ 15

unfoldable pub load_segment : RegValue → KvmSegment → RegValue
unfolding attributes_of
load_segment v d =
    store (store (store (store v 0 2 d.selector) 8 8 d.base) 16 4 d.limit) 20 2 (attributes_of d)

-- StoreSegment sets every field.
unfoldable pub store_segment : RegValue → KvmSegment
store_segment v =
    let attributes = load v 20 2 in
    record {
      selector = load v 0 2;
      base = load v 8 8;
      limit = load v 16 4;
      type = bits 0 4 attributes;
      present = bits 7 1 attributes;
      dpl = bits 5 2 attributes;
      db = bits 14 1 attributes;
      s = bits 4 1 attributes;
      l = bits 13 1 attributes;
      g = bits 15 1 attributes;
      avl = bits 12 1 attributes;
    }

unfoldable pub load_table : RegValue → KvmDtable → RegValue
load_table v t = store (store v 0 8 t.base) 8 2 t.limit

unfoldable pub store_table : RegValue → KvmDtable
store_table v = record { base = load v 0 8; limit = load v 8 2 }

-- The register files of the FPU, with one register replaced.
abbrev pub put : (ℕ → Bytes) → ℕ → Bytes → ℕ → Bytes
put file index block = set_at (λ i. i) file index block

unfoldable pub load_st_register : RegValue → ℕ → KvmFpu → RegValue
load_st_register v index fpu =
    store (store v 0 8 (load (fpu.fpr index) 0 8)) 8 2 (load (fpu.fpr index) 8 2)

unfoldable pub store_st_register : RegValue → ℕ → KvmFpu → KvmFpu
store_st_register v index fpu =
    let block = store (store (fpu.fpr index) 0 8 (load v 0 8)) 8 2 (load v 8 2) in
    record fpu { fpr = put fpu.fpr index block }

unfoldable pub load_mm_register : RegValue → ℕ → KvmFpu → RegValue
load_mm_register v index fpu = store v 0 8 (load (fpu.fpr index) 0 8)

unfoldable pub store_mm_register : RegValue → ℕ → KvmFpu → KvmFpu
store_mm_register v index fpu = record fpu {
  fpr = put fpu.fpr index (store (fpu.fpr index) 0 8 (load v 0 8));
}

-- The second components are the results; false leaves the value or the structure as it was.
unfoldable pub load_xmm_register : RegValue → ℕ → KvmFpu → RegValue × Bool
load_xmm_register v index fpu =
    if ltb index 16
    then (store (store v 0 8 (load (fpu.xmm index) 0 8)) 8 8 (load (fpu.xmm index) 8 8), true)
    else (v, false)

unfoldable pub store_xmm_register : RegValue → ℕ → KvmFpu → KvmFpu × Bool
store_xmm_register v index fpu =
    let block = store (store (fpu.xmm index) 0 8 (load v 0 8)) 8 8 (load v 8 8) in
    if ltb index 16 then (record fpu { xmm = put fpu.xmm index block }, true) else (fpu, false)
