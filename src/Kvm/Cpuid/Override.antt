-- ===== src/Kvm/Cpuid/Override.antt =====
-- Which entry of the specification stands for which supported entry.
use mathlib.Core.Path.{subst}
use virt.Base.{
  ℕ, ◌+◌, ◌*◌, ◌%◌, ◌^◌, ◌<◌, ◌≡◌, ◌≢◌, refl, ap, sym, ◌∙◌, ◌==◌, if◌then◌else◌, ◌<<<◌, u64, some,
  List, [], ◌∷◌, ◌++◌, length, get_elem?, All, arith,
}
use virt.Base.Bits.{bit_or_below}
use virt.Kvm.Cpuid.{CpuidResult, next_leaf, key, customs, find, entry, chosen, entries, cpuid_table}

-- How many entries of this function stand right at the end of a list, `n` of them before it.
abbrev pub run_length : ℕ → List CpuidResult → ℕ → ℕ
run_length f [] n = n
run_length f (r ∷ rs) n = run_length f rs (if r.function == f then n + 1 else 0)

key-low : (f l : ℕ) → f < 2 ^ 32 → key f l % 2 ^ 32 ≡ f
key-low f l lt =
    let words : u64 (l <<< 32) ≡ (l % 2 ^ 32) * 2 ^ 32 = omega arith in
    rw (words, bit_or_below 32 (l % 2 ^ 32) f lt) (omega arith)

key-function : (f g l m : ℕ) → f < 2 ^ 32 → g < 2 ^ 32 → key f l ≡ key g m → f ≡ g
key-function f g l m a b e = sym (key-low f l a) ∙ ap (λ k. k % 2 ^ 32) e ∙ key-low g m b

-- The state before an entry gives it its index.
next_leaf-step :
    (f last leaf n : ℕ) (r : CpuidResult)
    → next_leaf last leaf f ≡ n
    → next_leaf r.function (next_leaf last leaf r.function) f
      ≡ (if r.function == f then n + 1 else 0)
unfolding next_leaf
next_leaf-step f last leaf n r e = grind (arith, e)

entries-at :
    (table : List (ℕ × CpuidResult)) (pre post : List CpuidResult) (r : CpuidResult)
    (last leaf n : ℕ)
    → next_leaf last leaf r.function ≡ n
    → get_elem? (entries table last leaf (pre ++ r ∷ post)) (length pre)
      ≡ some (
          entry r.function
            (run_length r.function pre n)
            (chosen (find (key r.function (run_length r.function pre n)) table) r))
unfolding entries
entries-at table [] post r last leaf n e = rw e
entries-at table (p ∷ pre) post r last leaf n e =
    entries-at table pre post r p.function (next_leaf last leaf p.function)
      (if p.function == r.function then n + 1 else 0) (next_leaf-step r.function last leaf n p e)

find-skip :
    (k j : ℕ) (r : CpuidResult) (table : List (ℕ × CpuidResult))
    → k ≢ j
    → find k ((j, r) ∷ table) ≡ find k table
unfolding find
find-skip k j r table differ = ground arith

find-first :
    (k : ℕ) (r : CpuidResult) (table : List (ℕ × CpuidResult)) → find k ((k, r) ∷ table) ≡ some r
unfolding find
find-first k r table = ground arith

-- Entries of other functions are not found.
find-others :
    (f l : ℕ) (rs : List CpuidResult) (last leaf : ℕ) (table : List (ℕ × CpuidResult))
    → f < 2 ^ 32
    → All (λ r. (r.function < 2 ^ 32) × (r.function ≢ f)) rs
    → find (key f l) (customs last leaf rs table) ≡ find (key f l) table
unfolding customs
find-others f l [] last leaf table lt others = refl
find-others f l (r ∷ rs) last leaf table lt others =
    let leaf' = next_leaf last leaf r.function in
    find-others f l rs r.function leaf' ((key r.function leaf', r) ∷ table) lt others.1
    ∙ find-skip (key f l) (key r.function leaf') r table
        (λ same. others.0.1 (key-function r.function f leaf' l others.0.0 lt (sym same)))

find-last :
    (pre post : List CpuidResult) (c : CpuidResult) (last leaf n : ℕ)
    (table : List (ℕ × CpuidResult))
    → c.function < 2 ^ 32
    → next_leaf last leaf c.function ≡ n
    → All (λ r. (r.function < 2 ^ 32) × (r.function ≢ c.function)) post
    → find
        (key c.function (run_length c.function pre n))
        (customs last leaf (pre ++ c ∷ post) table)
      ≡ some c
unfolding customs
find-last [] post c last leaf n table lt e others =
    let leaf' = next_leaf last leaf c.function in
    subst (λ m. find (key c.function m) (customs last leaf (c ∷ post) table) ≡ some c) e
      (find-others c.function leaf' post c.function leaf' ((key c.function leaf', c) ∷ table) lt
          others
        ∙ find-first (key c.function leaf') c table)
find-last (p ∷ pre) post c last leaf n table lt e others =
    find-last pre post c p.function (next_leaf last leaf p.function)
      (if p.function == c.function then n + 1 else 0)
      ((key p.function (next_leaf last leaf p.function), p) ∷ table) lt
      (next_leaf-step c.function last leaf n p e) others

no_leaf : (f : ℕ) → f < 0xffff_ffff → next_leaf 0xffff_ffff 0 f ≡ 0
unfolding next_leaf
no_leaf f lt = ground arith

-- Let a supported entry and an entry of the specification have the same function, below 2 ^ 32 -
-- 1, and as many entries of that function right before each; let no later entry of the
-- specification have that function, and theirs be of 32 bits. Then the table has at the supported
-- entry's place its function, the index that counts these entries, and the registers of the
-- specification.
pub cpuid_table-custom :
    (pre post cpre cpost : List CpuidResult) (r c : CpuidResult)
    → r.function < 0xffff_ffff
    → c.function ≡ r.function
    → run_length r.function cpre 0 ≡ run_length r.function pre 0
    → All (λ o. (o.function < 2 ^ 32) × (o.function ≢ r.function)) cpost
    → get_elem? (cpuid_table (pre ++ r ∷ post) (cpre ++ c ∷ cpost)) (length pre)
      ≡ some (entry r.function (run_length r.function pre 0) c)
unfolding cpuid_table
cpuid_table-custom pre post cpre cpost r c lt same runs others =
    let table = customs 0xffff_ffff 0 (cpre ++ c ∷ cpost) [] in
    let found : find (key r.function (run_length r.function pre 0)) table ≡ some c =
      subst
        (λ f.
          f < 0xffff_ffff
          → run_length f cpre 0 ≡ run_length f pre 0
          → All (λ o. (o.function < 2 ^ 32) × (o.function ≢ f)) cpost
          → find (key f (run_length f pre 0)) table ≡ some c)
        same
        (λ small e rest.
          rw (sym e) (
            find-last cpre cpost c 0xffff_ffff 0 0 [] (omega arith) (no_leaf c.function small)
              rest))
        lt runs others in
    entries-at table pre post r 0xffff_ffff 0 0 (no_leaf r.function lt) ∙ rw found

pub cpuid_table-default :
    (pre post specified : List CpuidResult) (r : CpuidResult)
    → r.function < 0xffff_ffff
    → All (λ o. (o.function < 2 ^ 32) × (o.function ≢ r.function)) specified
    → get_elem? (cpuid_table (pre ++ r ∷ post) specified) (length pre)
      ≡ some (entry r.function (run_length r.function pre 0) r)
unfolding cpuid_table
cpuid_table-default pre post specified r lt others =
    let missed =
      find-others r.function (run_length r.function pre 0) specified 0xffff_ffff 0 [] (omega arith)
        others in
    entries-at (customs 0xffff_ffff 0 specified []) pre post r 0xffff_ffff 0 0
      (no_leaf r.function lt)
    ∙ rw (missed, find)
