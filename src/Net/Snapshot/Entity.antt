-- ===== src/Net/Snapshot/Entity.antt =====
-- The entities of a snapshot: the two loops of common/net/src/snapshot.cpp against each other.
use untitled.Base.{ℕ, ◌^◌, ◌<◌, ◌≡◌, sym, ap, ◌∙◌, All}
use untitled.Base.{
  List, [], ◌∷◌, ◌++◌, length, true, false, append_assoc, append-nil, append-eq-append_cases, inl,
  inr,
}
use untitled.Net.Bytes.Reader.{Reader}
use untitled.Net.Bytes.Agree.{Agrees, At}
use untitled.Net.Bytes.Fields.{agree_rules}
use untitled.Net.Snapshot.{
  Vec3, EntityState, write_entity, read_entity, write_entities, read_entities,
}

-- The ranges of the C++ field types.
abbrev pub IsFloat : ℕ → Type 0
IsFloat v = v < 2 ^ 32

pub record IsVec3 (v : Vec3) : Type 0 where
  pub x : IsFloat v.x
  pub y : IsFloat v.y
  pub z : IsFloat v.z

pub record IsEntity (e : EntityState) : Type 0 where
  pub id : e.id < 2 ^ 32
  pub type : e.type < 2 ^ 8
  pub position : IsVec3 e.position
  pub rotation_x : IsFloat e.rotation.x
  pub rotation_y : IsFloat e.rotation.y
  pub rotation_z : IsFloat e.rotation.z
  pub rotation_w : IsFloat e.rotation.w
  pub velocity : IsVec3 e.velocity
  pub angular : IsVec3 e.angular_velocity
  pub last : e.last_input_sequence < 2 ^ 32

entity-Agrees : (e : EntityState) → IsEntity e → Agrees (write_entity e) read_entity e
unfolding write_entity read_entity
entity-Agrees e v = search (agree_rules, v) depth 40 fits 4000

-- The bytes of the entities.
abbrev pub body : List EntityState → List ℕ
body [] = []
body (e ∷ es) = write_entity e [] ++ body es

write_entity-append :
    (e : EntityState) → IsEntity e → (out : List ℕ) → write_entity e out ≡ out ++ write_entity e []
write_entity-append e v out = agree.writes out ∙ ap (◌++◌ out) (sym (agree.writes []))
  where
    agree : Agrees (write_entity e) read_entity e
    agree = entity-Agrees e v

pub write_entities-body :
    (es : List EntityState) (out : List ℕ)
    → All IsEntity es
    → write_entities es out ≡ out ++ body es
unfolding write_entities
write_entities-body [] out v = sym (append-nil out)
write_entities-body (e ∷ es) out (v, vs) =
    write_entities-body es (write_entity e out) vs
    ∙ ap (λ (t : List ℕ). t ++ body es) (write_entity-append e v out)
    ∙ append_assoc out (write_entity e []) (body es)

-- One entity in front of more.
read_entity-write :
    (e : EntityState)
    → IsEntity e
    → (r : Reader) (rest : List ℕ) → At r (write_entity e [] ++ rest)
    → ((read_entity r).0 ≡ e) × At (read_entity r).1 rest
read_entity-write e v r rest at =
    (entity-Agrees e v).reads r rest (rw ((entity-Agrees e v).writes []) at at)

pub read_entities-body :
    (es done : List EntityState) (r : Reader) (rest : List ℕ)
    → All IsEntity es
    → At r (body es ++ rest)
    → read_entities (length es) done r ≡ (true, done ++ es)
unfolding read_entities
read_entities-body [] done r rest v at = rw append-nil
read_entities-body (e ∷ es) done r rest (v, vs) at =
    let (same, at') = read_entity-write e v r (body es ++ rest) (rw append_assoc at at) in
    rw (same, at'.fine, read_entities)
      (read_entities-body es (done ++ (e ∷ [])) (read_entity r).1 rest vs at'
        ∙ ap (λ (t : List EntityState). (true, t)) (append_assoc done (e ∷ []) es))

-- A buffer that stops inside the entities makes the loop return false.
pub read_entities_cut :
    (es done : List EntityState) (r : Reader) (front : List ℕ) (x : ℕ) (back : List ℕ)
    → All IsEntity es
    → body es ≡ front ++ (x ∷ back)
    → At r front
    → (read_entities (length es) done r).0 ≡ false
unfolding read_entities
read_entities_cut [] done r [] x back v e at = cc
read_entities_cut [] done r (f ∷ front) x back v e at = cc
read_entities_cut (e ∷ es) done r front x back (v, vs) eq at =
    elim (append-eq-append_cases (write_entity e []) (body es) front x back eq) [
      | inl (mid, here) ↦ rw (
        (entity-Agrees e v).cut r front x mid (sym ((entity-Agrees e v).writes []) ∙ here) at,
        read_entities,
      )
      | inr (mid, here, later) ↦
          let (same, at') = read_entity-write e v r mid (rw here at at) in
          rw (same, at'.fine, read_entities)
            (read_entities_cut es (done ++ (e ∷ [])) (read_entity r).1 mid x back vs later at')
    ]
