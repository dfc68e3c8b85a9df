-- ===== src/Platform/Security/Hierarchy.antt =====
-- The role walk of src/platform/security.rs against the hierarchy that the parents describe.
use apex_exec.Prelude.{
  ℕ, zero, suc, ◌+◌, ◌<◌, ◌≤◌, ◌≡◌, refl, sym, Bool, true, false, none, some, List, [], ◌∷◌, inl,
  inr, ◌⊎◌, arith, if◌then◌else◌, length, Bool-cases, Option-cases,
}
use apex_exec.Prelude.Text.{Text, text_eq, text_eq_iff, codes}
use apex_exec.Prelude.Map.{Map, get, contains, text_key, beq_refl}
use apex_exec.Platform.Security.{SecurityPolicy, Result, ok, err, unsupported}
use apex_exec.Platform.Security.Access.{walk_roles, role_visibility_walk, roles_of}

-- `Above ps a b`: role b is a proper ancestor of role a.
pub data Above (parents : Map Text Text) : Text → Text → Type 0 where
  parent : {a b : Text} → get a parents ≡ some b → Above parents a b
  up : {a b : Text} (c : Text) → get a parents ≡ some c → Above parents c b → Above parents a b

Above-trans :
    {parents : Map Text Text} {a b c : Text}
    → Above parents a b
    → Above parents b c
    → Above parents a c
Above-trans (parent e) k = up _ e k
Above-trans (up d e h) k = up d e (Above-trans h k)

-- A role above itself that is reached from a.
abbrev pub Cyclic : Map Text Text → Text → Type 0
Cyclic parents a = (c : Text) × (((a ≡ c) ⊎ Above parents a c) × Above parents c c)

abbrev pub Judged : Map Text Text → Text → Text → Result (Bool × ℕ) → Type 0
Judged parents viewer_role cursor (ok (true, n)) = Above parents cursor viewer_role
Judged parents viewer_role cursor (ok (false, n)) = ¬ (Above parents cursor viewer_role)
Judged parents viewer_role cursor (err e) = Cyclic parents cursor

-- The entries whose role was not visited.
unfoldable fresh : List Text → Map Text Text → ℕ
fresh visited [] = 0
fresh visited ((j, w) ∷ m) = (if contains j visited then 0 else 1) + fresh visited m

fresh-length : (m : Map Text Text) → fresh [] m ≤ length m
unfolding fresh contains
fresh-length [] = ground arith
fresh-length ((j, w) ∷ m) = ground (arith, fresh-length m)

fresh_mono :
    (c : Text) (visited : List Text) (m : Map Text Text) → fresh (c ∷ visited) m ≤ fresh visited m
unfolding fresh contains
fresh_mono c visited [] = ground arith
fresh_mono c visited ((j, w) ∷ m) = ground (arith, fresh_mono c visited m)

fresh-visit :
    (c b : Text) (visited : List Text) (m : Map Text Text)
    → contains c visited ≡ false
    → get c m ≡ some b
    → fresh (c ∷ visited) m < fresh visited m
unfolding fresh contains get
fresh-visit c b visited [] h e = cc
fresh-visit c b visited ((j, w) ∷ m) h e = elim (Bool-cases (text_eq j c)) [
  | inl q ↦
      let same = (text_eq_iff j c).0 q in ground (arith, fresh_mono c visited m, same, beq_refl c)
  | inr q ↦ ground (arith, fresh-visit c b visited m h)
]

Above-root : (ps : Map Text Text) (a b : Text) → get a ps ≡ none → ¬ (Above ps a b)
Above-root ps a b h (parent e) = cc
Above-root ps a b h (up c e k) = cc

Above-next :
    (ps : Map Text Text) (a b c : Text)
    → get a ps ≡ some c
    → text_eq c b ≡ false
    → Above ps a b
    → Above ps c b
Above-next ps a b c h q (parent e) =
    let same : c ≡ b = cc in let hit = (text_eq_iff c b).1 same in cc
Above-next ps a b c h q (up d e k) = let same : c ≡ d = cc in rw same k

Judged-back :
    (ps : Map Text Text) (viewer a c : Text) (r : Result (Bool × ℕ))
    → get a ps ≡ some c
    → text_eq c viewer ≡ false
    → Judged ps viewer c r
    → Judged ps viewer a r
Judged-back ps viewer a c (ok (true, n)) h q j = up c h j
Judged-back ps viewer a c (ok (false, n)) h q j = λ k. j (Above-next ps a viewer c h q k)
Judged-back ps viewer a c (err e) h q (d, (inl same, loop)) =
    (d, (inr (parent (rw (sym same) h)), loop))
Judged-back ps viewer a c (err e) h q (d, (inr k, loop)) = (d, (inr (up c h k), loop))

-- What the loop keeps: each visited role lies below the cursor.
abbrev Below : Map Text Text → List Text → Text → Type 0
Below ps visited cursor = (v : Text) → contains v visited ≡ true → Above ps v cursor

Below-step :
    (ps : Map Text Text) (visited : List Text) (a c : Text)
    → get a ps ≡ some c
    → Below ps visited a
    → Below ps (a ∷ visited) c
unfolding contains
Below-step ps visited a c h below v q = elim (Bool-cases (text_eq a v)) [
  | inl same ↦ rw (sym ((text_eq_iff a v).0 same)) (parent h)
  | inr other ↦ Above-trans (below v (ground arith)) (parent h)
]

nothing_in : (v : Text) → ¬ (contains v [] ≡ true)
unfolding contains
nothing_in v h = cc

walk_roles-Judged :
    (ps : Map Text Text) (viewer cursor : Text) (fuel : ℕ) (visited : List Text)
    → fresh visited ps < fuel
    → Below ps visited cursor
    → (r : Result (Bool × ℕ)) × ((walk_roles fuel ps viewer cursor visited ≡ some r)
        × Judged ps viewer cursor r)
unfolding walk_roles
walk_roles-Judged ps viewer cursor zero visited lt below = absurd (omega arith)
walk_roles-Judged ps viewer cursor (suc fuel) visited lt below =
    elim (Bool-cases (contains cursor visited)) [
      | inl seen ↦ (
        err (unsupported (codes "cyclic role hierarchy")),
        (rw seen, (cursor, (inl refl, below cursor seen))),
      )
      | inr unseen ↦ elim (Option-cases (get cursor ps)) [
        | inl root ↦ (
          ok (false, length visited + 1),
          (rw unseen (rw root), Above-root ps cursor viewer root),
        )
        | inr (c, h) ↦ elim (Bool-cases (text_eq c viewer)) [
          | inl found ↦ (
            ok (true, length visited + 1),
            (rw unseen (rw h (rw found)), rw (sym ((text_eq_iff c viewer).0 found)) (parent h)),
          )
          | inr q ↦
              let (r, (e, j)) =
                walk_roles-Judged ps viewer c fuel (cursor ∷ visited)
                  (ground (arith, fresh-visit cursor c visited ps unseen h))
                  (Below-step ps visited cursor c h below) in
              (r, (rw unseen (rw h (rw q e)), Judged-back ps viewer cursor c r h q j))
        ]
      ]
    ]

visibility-of_walk :
    (p : SecurityPolicy) (viewer_id owner_id viewer_role owner_role : Text) (r : Result (Bool × ℕ))
    → p.configured ≡ true
    → roles_of p viewer_id owner_id ≡ some (viewer_role, owner_role)
    → walk_roles (length p.role_parents + 1) p.role_parents viewer_role owner_role [] ≡ some r
    → role_visibility_walk p viewer_id owner_id ≡ some r
unfolding role_visibility_walk
visibility-of_walk p viewer_id owner_id viewer_role owner_role r on roles e = rw roles (rw on e)

-- With the security profile configured, the role walk for two users who have roles always comes to
-- an answer within its bound of role parents, and the answer is right: it says yes only when the
-- viewer's role is a proper ancestor of the owner's, says no only when it is not, and reports a cyclic hierarchy only when a role that is the owner's or above
-- it is above itself.
pub role_visibility_walk-Judged :
    (p : SecurityPolicy) (viewer_id owner_id viewer_role owner_role : Text)
    → p.configured ≡ true
    → roles_of p viewer_id owner_id ≡ some (viewer_role, owner_role)
    → (r : Result (Bool × ℕ)) × ((role_visibility_walk p viewer_id owner_id ≡ some r)
        × Judged p.role_parents viewer_role owner_role r)
role_visibility_walk-Judged p viewer_id owner_id viewer_role owner_role on roles =
    let (r, (e, j)) =
      walk_roles-Judged p.role_parents viewer_role owner_role (length p.role_parents + 1) []
        (ground (arith, fresh-length p.role_parents)) (λ v h. absurd (nothing_in v h)) in
    (r, (visibility-of_walk p viewer_id owner_id viewer_role owner_role r on roles e, j))
