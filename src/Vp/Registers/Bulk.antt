-- ===== src/Vp/Registers/Bulk.antt =====
-- Operations in bulk stop at the first failure, with the work before it done.
use virt.Base.{
  ◌≤◌, ◌≡◌, refl, ap, ◌⊎◌, inl, inr, Option, none, some, List, [], ◌∷◌, ◌++◌, length, arith,
}
use virt.Vp.Status.{Failure, Result, ok, err}
use virt.Vp.Registers.{read_loop, write_loop}

-- The two lists go together, element by element.
pub data Both {I V : Type 0} (R : I → V → Type 0) : List I → List V → Type 0 where
  nil : Both R [] []
  cons :
      {i : I} {v : V} {is : List I} {vs : List V} → R i v → Both R is vs → Both R (i ∷ is) (v ∷ vs)

-- Either all is read, or the first failure is at `i`, and the values from there on are the caller's.
pub data ReadUntil {I V : Type 0} (get : I → Result V) (is : List I) (vs : List V)
    (result : List V × Option Failure) : Type 0 where
  all_read :
      (ws : List V)
      → Both (λ i w. get i ≡ ok w) is ws
      → (rest : List V) → result ≡ (ws ++ rest, none)
      → ReadUntil get is vs result
  stopped :
      (before : List I) (i : I) (after : List I) (ws old rest : List V) (e : Failure)
      → is ≡ before ++ i ∷ after
      → vs ≡ old ++ rest
      → Both (λ j w. get j ≡ ok w) before ws
      → length old ≡ length ws
      → get i ≡ err e
      → result ≡ (ws ++ rest, some e)
      → ReadUntil get is vs result

Result-cases : {A : Type 0} (r : Result A) → ((a : A) × (r ≡ ok a)) ⊎ ((e : Failure) × (r ≡ err e))
Result-cases (ok a) = inl (a, refl)
Result-cases (err e) = inr (e, refl)

module _ {I V : Type 0} (get : I → Result V) where
  ReadUntil-cons :
      (i : I) (is : List I) (v w : V) (vs : List V) (result : List V × Option Failure)
      → get i ≡ ok w
      → ReadUntil get is vs result
      → ReadUntil get (i ∷ is) (v ∷ vs) (w ∷ result.0, result.1)
  ReadUntil-cons i is v w vs result e (all_read ws b rest r) =
      all_read (w ∷ ws) (cons e b) rest (rw r)
  ReadUntil-cons i is v w vs result e (stopped before j after ws old rest f s o b l g r) =
      stopped (i ∷ before) j after (w ∷ ws) (v ∷ old) rest f (ap (◌∷◌ i) s) (ap (◌∷◌ v) o)
        (cons e b) (omega arith) g (rw r)

  -- If there is room for all values, a read in bulk reads the registers in order up to the first
  -- failure, returns that failure, and leaves the values from there on as they were.
  pub read_loop-ReadUntil :
      (is : List I) (vs : List V)
      → length is ≤ length vs
      → ReadUntil get is vs (read_loop get is vs)
  unfolding read_loop
  read_loop-ReadUntil [] vs h = all_read [] nil vs refl
  read_loop-ReadUntil (i ∷ is) [] h = elim h [ ]
  read_loop-ReadUntil (i ∷ is) (v ∷ vs) h = elim (Result-cases (get i)) [
    | inl (w, e) ↦
        rw (e, read_loop) (ReadUntil-cons i is v w vs _ e (read_loop-ReadUntil is vs (omega arith)))
    | inr (f, e) ↦ rw (e, read_loop) (stopped [] i is [] [] (v ∷ vs) f refl refl nil refl e refl)
  ]

-- The writes go through one after the other.
pub data Writes {I V S : Type 0} (set : I → V → S → Option Failure × S)
    : List I → List V → S → S → Type 0 where
  nil : {s : S} → Writes set [] [] s s
  cons :
      {i : I} {v : V} {is : List I} {vs : List V} {s t u : S}
      → set i v s ≡ (none, t)
      → Writes set is vs t u
      → Writes set (i ∷ is) (v ∷ vs) s u

-- Either every write succeeds, or the first that fails is the last that is made.
pub data WriteUntil {I V S : Type 0} (set : I → V → S → Option Failure × S) (is : List I)
    (vs : List V) (s : S) (result : Option Failure × S) : Type 0 where
  all_written : (t : S) → Writes set is vs s t → result ≡ (none, t) → WriteUntil set is vs s result
  stopped :
      (before : List I) (i : I) (after : List I) (ws : List V) (v : V) (rest : List V) (t u : S)
      (e : Failure)
      → is ≡ before ++ i ∷ after
      → vs ≡ ws ++ v ∷ rest
      → Writes set before ws s t
      → set i v t ≡ (some e, u)
      → result ≡ (some e, u)
      → WriteUntil set is vs s result

module _ {I V S : Type 0} (set : I → V → S → Option Failure × S) where
  WriteUntil-cons :
      (i : I) (is : List I) (v : V) (vs : List V) (s t : S) (result : Option Failure × S)
      → set i v s ≡ (none, t)
      → WriteUntil set is vs t result
      → WriteUntil set (i ∷ is) (v ∷ vs) s result
  WriteUntil-cons i is v vs s t result e (all_written u w r) = all_written u (cons e w) r
  WriteUntil-cons i is v vs s t result e (stopped before j after ws x rest u u' f p q w g r) =
      stopped (i ∷ before) j after (v ∷ ws) x rest u u' f (ap (◌∷◌ i) p) (ap (◌∷◌ v) q) (cons e w) g
        r

  outcome-cases :
      (o : Option Failure × S)
      → ((t : S) × (o ≡ (none, t))) ⊎ ((e : Failure) × (t : S) × (o ≡ (some e, t)))
  outcome-cases (none, t) = inl (t, refl)
  outcome-cases (some e, t) = inr (e, t, refl)

  -- If there is a value for each register, a write in bulk makes the writes in order up to the
  -- first that fails, and returns that failure.
  pub write_loop-WriteUntil :
      (is : List I) (vs : List V) (s : S)
      → length is ≡ length vs
      → WriteUntil set is vs s (write_loop set is vs s)
  unfolding write_loop
  write_loop-WriteUntil [] [] s h = all_written s nil refl
  write_loop-WriteUntil [] (v ∷ vs) s h = absurd (omega arith)
  write_loop-WriteUntil (i ∷ is) [] s h = absurd (omega arith)
  write_loop-WriteUntil (i ∷ is) (v ∷ vs) s h = elim (outcome-cases (set i v s)) [
    | inl (t, e) ↦
        rw (e, write_loop)
          (WriteUntil-cons i is v vs s t _ e (write_loop-WriteUntil is vs t (omega arith)))
    | inr (f, t, e) ↦ rw (e, write_loop) (stopped [] i is [] v vs s t f refl refl nil e refl)
  ]
