-- ===== src/LoopDetector/Sets.antt =====
-- The key sets of internal/session/loopdetect.go: a set is similar to itself.
use coagent.Base.{
  ◌≡◌, refl, ◌↔◌, ◌≢◌, true, not, List, [], ◌∷◌, arith, length, count_if, All, str_eq_iff,
}
use coagent.LoopDetector.{
  Key, key_eq, has_key, insert_key, key_set, intersection, union, is_similar,
}

pub key_eq_iff : (j k : Key) → (key_eq j k ≡ true) ↔ (j ≡ k)
unfolding key_eq
key_eq_iff j k = ground (arith, str_eq_iff j.name k.name)

-- Membership is what insertion makes it.
pub has_key-key_set : (ks : List Key) (k : Key) → has_key (key_set ks) k ≡ has_key ks k
unfolding has_key key_set insert_key
has_key-key_set [] k = refl
has_key-key_set (j ∷ ks) k =
    ground (arith, key_eq_iff k j, has_key-key_set ks k, has_key-key_set ks j)

-- Every key of `s` is in `t`.
abbrev Within : List Key → List Key → Type 0
Within s t = All (λ k. has_key t k ≡ true) s

Within-cons : (j : Key) (s t : List Key) → Within s t → Within s (j ∷ t)
unfolding has_key
Within-cons j [] t h = tt
Within-cons j (k ∷ s) t h = (ground arith, Within-cons j s t h.1)

Within-self : (s : List Key) → Within s s
unfolding has_key
Within-self [] = tt
Within-self (k ∷ s) = (ground (arith, key_eq_iff k k), Within-cons k s s (Within-self s))

count_if-Within : (s t : List Key) → Within s t → count_if (has_key t) s ≡ length s
count_if-Within [] t h = refl
count_if-Within (k ∷ s) t h = ground (arith, count_if-Within s t h.1)

count_if-not-Within : (s t : List Key) → Within s t → count_if (λ k. not (has_key t k)) s ≡ 0
count_if-not-Within [] t h = refl
count_if-not-Within (k ∷ s) t h = ground (arith, count_if-not-Within s t h.1)

pub is_similar_refl : (s : List Key) → s ≢ [] → is_similar s s ≡ true
unfolding is_similar intersection union
is_similar_refl [] h = absurd (h refl)
is_similar_refl (k ∷ s) h = ground (
  arith,
  count_if-Within (k ∷ s) (k ∷ s) (Within-self (k ∷ s)),
  count_if-not-Within (k ∷ s) (k ∷ s) (Within-self (k ∷ s)),
)

pub key_set-ne_nil : (k : Key) (ks : List Key) → key_set (k ∷ ks) ≢ []
unfolding key_set insert_key has_key
key_set-ne_nil k ks e = ground arith
