-- ===== src/Catalog/Sort.antt =====
-- SortEfforts of internal/catalog/effort.go.
use coagent.Base.{
  ◌≡◌, refl, ap, ◌&&◌, List, [], ◌∷◌, String, str_eq, arith, inl, inr, Bool-cases, str_eq_iff,
}
use coagent.Catalog.{effort_order, contains, known_efforts, sort_efforts}

contains-known_efforts :
    (levels order : List String) (level : String)
    → contains (known_efforts levels order) level ≡ contains levels level && contains order level
unfolding known_efforts
contains-known_efforts levels [] level = ground arith
contains-known_efforts levels (want ∷ order) level =
    let rest = contains-known_efforts levels order level in
    elim (Bool-cases (str_eq level want)) [
      | inl e ↦
          let same : contains levels level ≡ contains levels want =
            ap (contains levels) ((str_eq_iff level want).0 e) in
          ground (arith, rest, e, same)
      | inr e ↦ ground (arith, rest, e)
    ]

-- A level is in the sorted list if and only if it is in the given list and is one that is known.
pub contains-sort_efforts :
    (levels : List String) (level : String)
    → contains (sort_efforts levels) level ≡ contains levels level && contains effort_order level
unfolding sort_efforts
contains-sort_efforts levels level = contains-known_efforts levels effort_order level

known_efforts_canonical :
    (a b order : List String)
    → ((level : String) → contains a level ≡ contains b level)
    → known_efforts a order ≡ known_efforts b order
unfolding known_efforts
known_efforts_canonical a b [] h = refl
known_efforts_canonical a b (want ∷ order) h =
    ground (arith, h want, known_efforts_canonical a b order h)

-- Two lists with the same levels sort to the same list, however often and in whatever order each
-- names them.
pub sort_efforts_canonical :
    (a b : List String)
    → ((level : String) → contains a level ≡ contains b level)
    → sort_efforts a ≡ sort_efforts b
unfolding sort_efforts
sort_efforts_canonical a b h = known_efforts_canonical a b effort_order h
