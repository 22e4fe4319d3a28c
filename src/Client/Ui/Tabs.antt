-- ===== src/Client/Ui/Tabs.antt =====
-- The order in which Tab goes through the text fields (`Ui::end` in client/src/ui/widgets.cpp).
use untitled.Base.{ℕ, zero, suc, ◌+◌, ◌≡◌, ◌≢◌, refl, sym, ◌∙◌, ap, arith, true, false}
use untitled.Base.{◌<◌, ◌%◌, get_or, Bool-cases, inl, inr}
use native.Mathlib.Nat.{mod-lt, mod-add-mod, mod_self, mod-eq_of_lt}
use untitled.Base.{List, [], ◌∷◌, length, ◌==◌, if◌then◌else◌, All}
use untitled.Client.Ui.{Ui, InputState, begin, finish, tab_to, next_field}

-- No two of them are the same.
abbrev pub AreDistinct : List ℕ → Type 0
AreDistinct [] = Unit
AreDistinct (f ∷ fs) = All (λ (g : ℕ). f ≢ g) fs × AreDistinct fs

-- As many frames with Tab.
unfoldable pub tab_times : ℕ → List ℕ → ℕ → ℕ
tab_times zero fields focused = focused
tab_times (suc n) fields focused = tab_times n fields (tab_to fields focused)

-- Field `i`, 0 where there is none.
abbrev pub field : List ℕ → ℕ → ℕ
field fields i = get_or fields i 0

differs : (f : ℕ) (fs : List ℕ) (i : ℕ) → i < length fs → All (λ (g : ℕ). f ≢ g) fs → f ≢ field fs i
differs f [] i h a = omega arith
differs f (g ∷ fs) zero h (a, b) = a
differs f (g ∷ fs) (suc i) h (a, b) = differs f fs i (omega arith) b

-- Behind field `i` comes the next one, or the first behind the last.
next_field-field :
    (first : ℕ) (fs : List ℕ) (i : ℕ)
    → i < length fs
    → AreDistinct fs
    → next_field first (field fs i) fs ≡ (if suc i == length fs then first else field fs (suc i))
unfolding next_field
next_field-field first [] i h d = omega arith
next_field-field first (f ∷ []) zero h d = refl
next_field-field first (f ∷ []) (suc i) h d = omega arith
next_field-field first (f ∷ g ∷ more) zero h d = ground arith
next_field-field first (f ∷ g ∷ more) (suc i) h (a, d) =
    let rest = next_field-field first (g ∷ more) i (omega arith) d in
    let other = differs f (g ∷ more) i (omega arith) a in ground (arith, rest, other)

small : (i n m : ℕ) → i ≡ n → n < m → i ≡ n % m
small i n m same below = same ∙ sym (mod-eq_of_lt below)

wrapped :
    (f : ℕ) (more : List ℕ) (i : ℕ)
    → i < length (f ∷ more)
    → (if suc i == length (f ∷ more) then f else field (f ∷ more) (suc i))
      ≡ field (f ∷ more) ((i + 1) % length (f ∷ more))
wrapped f more i h = elim (Bool-cases (suc i == length (f ∷ more))) [
  | inl last ↦ rw last (
      ap (field (f ∷ more)) {x = 0} {y = (i + 1) % length (f ∷ more)} (
        sym (mod_self (length (f ∷ more)))
        ∙ ap (λ (n : ℕ). n % length (f ∷ more)) {x = length (f ∷ more)} {y = i + 1}
            (ground (arith, last))))
  | inr inner ↦ rw inner (
      ap (field (f ∷ more)) {x = suc i} {y = (i + 1) % length (f ∷ more)}
        (small (suc i) (i + 1) (length (f ∷ more)) (omega arith) (ground (arith, inner))))
]

tab_to-field :
    (fields : List ℕ) (i : ℕ)
    → i < length fields
    → AreDistinct fields
    → tab_to fields (field fields i) ≡ field fields ((i + 1) % length fields)
unfolding tab_to
tab_to-field [] i h d = omega arith
tab_to-field (f ∷ more) i h d = next_field-field f (f ∷ more) i h d ∙ wrapped f more i h

tab_times-field :
    (fields : List ℕ) (k i : ℕ)
    → i < length fields
    → AreDistinct fields
    → tab_times k fields (field fields i) ≡ field fields ((i + k) % length fields)
unfolding tab_times
tab_times-field fields zero i h d =
    ap (field fields) {x = i} {y = (i + 0) % length fields}
      (small i (i + 0) (length fields) (omega arith) (omega arith))
tab_times-field fields (suc k) i h d = rw (tab_to-field fields i h d) (
    tab_times-field fields k ((i + 1) % length fields) (mod-lt (i + 1) (omega arith)) d
    ∙ ap (field fields) (
        mod-add-mod (i + 1) (length fields) k
        ∙ ap (λ (n : ℕ). n % length fields) {x = i + 1 + k} {y = i + suc k} (omega arith)))

-- As many frames that draw the fields and in which only Tab is pressed.
unfoldable pub tab_frames : ℕ → List ℕ → InputState → Ui → Ui
tab_frames zero fields input ui = ui
tab_frames (suc n) fields input ui =
    tab_frames n fields input (finish (record (begin input ui) { text_fields = fields }))

finish-tab_to :
    (fields : List ℕ) (input : InputState) (ui : Ui)
    → input.mouse_pressed ≡ false
    → input.tab ≡ true
    → (finish (record (begin input ui) { text_fields = fields })).focused ≡ tab_to fields ui.focused
unfolding finish begin
finish-tab_to fields input ui h t = rw (h, t) refl

tab_frames-tab_times :
    (k : ℕ) (fields : List ℕ) (input : InputState) (ui : Ui)
    → input.mouse_pressed ≡ false
    → input.tab ≡ true
    → (tab_frames k fields input ui).focused ≡ tab_times k fields ui.focused
unfolding tab_frames tab_times
tab_frames-tab_times zero fields input ui h t = refl
tab_frames-tab_times (suc k) fields input ui h t =
    let ui' = finish (record (begin input ui) { text_fields = fields }) in
    tab_frames-tab_times k fields input ui' h t
    ∙ ap (tab_times k fields) (finish-tab_to fields input ui h t)

-- Where the fields on the screen are distinct and field i has the focus, after k frames in which
-- Tab and no mouse button is pressed, the focus is on field i + k, counted round from the first
-- behind the last.
pub tab_frames-field :
    (fields : List ℕ) (k i : ℕ) (input : InputState) (ui : Ui)
    → input.mouse_pressed ≡ false
    → input.tab ≡ true
    → AreDistinct fields
    → i < length fields
    → ui.focused ≡ field fields i
    → (tab_frames k fields input ui).focused ≡ field fields ((i + k) % length fields)
tab_frames-field fields k i input ui h t d below here =
    tab_frames-tab_times k fields input ui h t
    ∙ ap (tab_times k fields) here
    ∙ tab_times-field fields k i below d
