-- ===== src/Client/Prediction/Pending.antt =====
-- The inputs that client/src/prediction.cpp keeps until they are acknowledged.
use untitled.Base.{ℕ, ◌+◌, ◌%◌, ◌^◌, ◌≤◌, ◌<◌, ◌≡◌, refl, arith, All, List, [], ◌∷◌, ◌++◌, length}
use untitled.Base.{Bool, true, false, not, ltb, leb, if◌then◌else◌, keep, Bool-cases, inl, inr}
use untitled.Sim.Float.{Fpu}
use untitled.Sim.Character.{CharacterInput, Vec3}
use untitled.Net.Snapshot.{EntityState}
use untitled.Client.Prediction.{
  Prediction, trim, drop_acked, step, reconcile, settle_correction, max_pending, reconcile_active,
  replay, rewind,
}

abbrev pub IsAscending : List CharacterInput → Type 0
IsAscending [] = Unit
IsAscending (i ∷ is) = All (λ (j : CharacterInput). i.sequence < j.sequence) is × IsAscending is

abbrev pub Before : ℕ → List CharacterInput → Type 0
Before n is = All (λ (i : CharacterInput). i.sequence < n) is

-- The history is bounded, and its sequence numbers ascend up to the next one.
pub record IsHistory (next : ℕ) (pending : List CharacterInput) : Type 0 where
  pub bounded : length pending ≤ max_pending
  pub ascending : IsAscending pending
  pub before : Before next pending

abbrev pub IsPrediction : Prediction → Type 0
IsPrediction p = IsHistory p.next_sequence p.pending

length-trim : (is : List CharacterInput) → length (trim is) ≤ max_pending
unfolding trim
length-trim [] = omega arith
length-trim (i ∷ is) = ground (arith, length-trim is)

trim-IsAscending : (is : List CharacterInput) → IsAscending is → IsAscending (trim is)
unfolding trim
trim-IsAscending [] h = tt
trim-IsAscending (i ∷ is) (a, h) = elim (Bool-cases (ltb max_pending (length (i ∷ is)))) [
  | inl long ↦ rw long (trim-IsAscending is h)
  | inr short ↦ rw short (a, h)
]

trim-Before : (n : ℕ) (is : List CharacterInput) → Before n is → Before n (trim is)
unfolding trim
trim-Before n [] h = tt
trim-Before n (i ∷ is) (a, h) = elim (Bool-cases (ltb max_pending (length (i ∷ is)))) [
  | inl long ↦ rw long (trim-Before n is h)
  | inr short ↦ rw short (a, h)
]

push-IsAscending :
    (is : List CharacterInput) (i : CharacterInput)
    → IsAscending is
    → Before i.sequence is
    → IsAscending (is ++ (i ∷ []))
push-IsAscending [] i h b = (tt, tt)
push-IsAscending (j ∷ is) i (a, h) (b, bs) = (push-All is a, push-IsAscending is i h bs)
  where
    push-All :
        (js : List CharacterInput)
        → All (λ (k : CharacterInput). j.sequence < k.sequence) js
        → All (λ (k : CharacterInput). j.sequence < k.sequence) (js ++ (i ∷ []))
    push-All [] x = (b, tt)
    push-All (k ∷ js) (x, y) = (x, push-All js y)

push-Before :
    (n : ℕ) (is : List CharacterInput) (i : CharacterInput)
    → i.sequence < n
    → Before i.sequence is
    → Before n (is ++ (i ∷ []))
push-Before n [] i h b = (h, tt)
push-Before n (j ∷ is) i h (b, bs) = (omega arith, push-Before n is i h bs)

Before-grow : (m n : ℕ) (is : List CharacterInput) → m ≤ n → Before m is → Before n is
Before-grow m n [] h b = tt
Before-grow m n (i ∷ is) h (b, bs) = (omega arith, Before-grow m n is h bs)

drop_acked-IsAscending :
    (acked : ℕ) (is : List CharacterInput) → IsAscending is → IsAscending (drop_acked acked is)
unfolding drop_acked
drop_acked-IsAscending acked [] h = tt
drop_acked-IsAscending acked (i ∷ is) (a, h) = elim (Bool-cases (leb i.sequence acked)) [
  | inl old ↦ rw old (drop_acked-IsAscending acked is h)
  | inr new ↦ rw new (a, h)
]

drop_acked-Before :
    (acked n : ℕ) (is : List CharacterInput) → Before n is → Before n (drop_acked acked is)
unfolding drop_acked
drop_acked-Before acked n [] h = tt
drop_acked-Before acked n (i ∷ is) (a, h) = elim (Bool-cases (leb i.sequence acked)) [
  | inl old ↦ rw old (drop_acked-Before acked n is h)
  | inr new ↦ rw new (a, h)
]

length-drop_acked :
    (acked : ℕ) (is : List CharacterInput) → length (drop_acked acked is) ≤ length is
unfolding drop_acked
length-drop_acked acked [] = omega arith
length-drop_acked acked (i ∷ is) = ground (arith, length-drop_acked acked is)

-- What the loop leaves of an ascending history is what is not acknowledged.
keep_above :
    (acked n : ℕ) (is : List CharacterInput)
    → acked < n
    → All (λ (j : CharacterInput). n < j.sequence) is
    → keep (λ (j : CharacterInput). ltb acked j.sequence) is ≡ is
keep_above acked n [] h a = refl
keep_above acked n (i ∷ is) h (x, a) = ground (arith, keep_above acked n is h a)

pub drop_acked-eq-keep :
    (acked : ℕ) (is : List CharacterInput)
    → IsAscending is
    → drop_acked acked is ≡ keep (λ (j : CharacterInput). ltb acked j.sequence) is
unfolding drop_acked
drop_acked-eq-keep acked [] h = refl
drop_acked-eq-keep acked (i ∷ is) (a, h) = elim (Bool-cases (leb i.sequence acked)) [
  | inl old ↦ ground (arith, old, drop_acked-eq-keep acked is h)
  | inr new ↦ ground (arith, new, keep_above acked i.sequence is (ground (arith, new)) a)
]

field-if :
    {B : Type 0} (f : Prediction → B) (b : Bool) (p q : Prediction) (x : B)
    → f p ≡ x
    → f q ≡ x
    → f (if b then p else q) ≡ x
field-if f true p q x h k = h
field-if f false p q x h k = k

prediction-if :
    (b : Bool) (p q : Prediction)
    → IsPrediction p
    → IsPrediction q
    → IsPrediction (if b then p else q)
prediction-if true p q v w = v
prediction-if false p q v w = w

module _ (fpu : Fpu) where
  -- A step keeps the unacknowledged inputs at 256 at most, ascending in sequence and below the
  -- next number, where that does not wrap.
  pub step-IsPrediction :
      (forward right yaw : ℕ) (jump sprint : Bool) (p : Prediction)
      → IsPrediction p
      → p.next_sequence + 1 < 2 ^ 32
      → IsPrediction (step fpu forward right yaw jump sprint p).1
  unfolding step
  step-IsPrediction forward right yaw jump sprint p v fits =
      let i : CharacterInput = record {
        sequence = p.next_sequence;
        move_forward = forward;
        move_right = right;
        yaw = yaw;
        jump = jump;
        sprint = sprint;
      } in
      let n = (p.next_sequence + 1) % 2 ^ 32 in
      let grown : Before n p.pending =
        Before-grow p.next_sequence n p.pending (omega arith) v.before in
      elim (Bool-cases p.active) [
        | inl on ↦ rw on (record {
          bounded = length-trim (p.pending ++ (i ∷ []));
          ascending =
              trim-IsAscending (p.pending ++ (i ∷ []))
                (push-IsAscending p.pending i v.ascending v.before);
          before =
              trim-Before n (p.pending ++ (i ∷ []))
                (push-Before n p.pending i (omega arith) v.before);
        })
        | inr off ↦ rw off (record { bounded = v.bounded; ascending = v.ascending; before = grown })
      ]

  settle_correction-pending :
      (before : Vec3) (p : Prediction) → (settle_correction fpu before p).pending ≡ p.pending
  unfolding settle_correction
  settle_correction-pending before p = search (field-if λ (q : Prediction). q.pending)

  settle_correction-next :
      (before : Vec3) (p : Prediction)
      → (settle_correction fpu before p).next_sequence ≡ p.next_sequence
  unfolding settle_correction
  settle_correction-next before p = search (field-if λ (q : Prediction). q.next_sequence)

  reconcile_active-IsPrediction :
      (a : EntityState) (p : Prediction) → IsPrediction p → IsPrediction (reconcile_active fpu a p)
  unfolding reconcile_active
  reconcile_active-IsPrediction a p v =
      let left = drop_acked a.last_input_sequence p.pending in
      let q : Prediction = record p {
        pending = left;
        character = replay fpu (rewind fpu a p.character) left;
      } in
      rw
        (
          settle_correction-next p.character.position q,
          settle_correction-pending p.character.position q,
        )
        (record {
          bounded = omega (arith, length-drop_acked a.last_input_sequence p.pending, v.bounded);
          ascending = drop_acked-IsAscending a.last_input_sequence p.pending v.ascending;
          before = drop_acked-Before a.last_input_sequence p.next_sequence p.pending v.before;
        })

  -- x
  pub reconcile-IsPrediction :
      (a : EntityState) (p : Prediction) → IsPrediction p → IsPrediction (reconcile fpu a p)
  unfolding reconcile
  reconcile-IsPrediction a p v =
      prediction-if (not p.active) p (reconcile_active fpu a p) v
        (reconcile_active-IsPrediction a p v)
