-- ===== src/Cache/PendingFetches/Sharing.antt =====
-- Who shares a fetch of feuer/src/cache/pending_fetches.rs, through any calls.
use mathlib.Core.Path.{subst}
use feuer.Base.{
  ℕ, suc, ◌-◌, ◌<◌, ◌≡◌, ◌≢◌, ◌⊎◌, inl, inr, refl, ap, sym, ◌∙◌, List, [], ◌∷◌, Option, none, some,
  true, false, ◌==◌, ltb, arith, ℕ_discrete, Bool-cases, Option-cases, ==_iff,
}
use feuer.Base.HashMap
use feuer.Base.HashMap.{HashMap}
use feuer.Cache.PendingFetches.{
  PendingFetch, Registry, upgraded, upgrade, new_fetch, join, remove_from_registry, drop_owner,
  Call, join_call, remove_call, drop_call, after_call, after_calls,
}

-- The registry leads from the key to the fetch, which has owners, and new identities are new.
pub record IsShared (r : Registry) (key identity : ℕ) : Type 0 where
  pub owners : ℕ
  pub registered : HashMap.get key r.entries ≡ some identity
  pub owned : HashMap.get identity r.fetches ≡ some (record { key = key; owners = suc owners })
  pub older : identity < r.next_identity

-- Other calls: none takes the fetch out of the registry, and none is by its last owner.
abbrev pub IsOther : Registry → ℕ → Call → Type 0
IsOther r identity (join_call key) = Unit
IsOther r identity (remove_call i) = i ≢ identity
IsOther r identity (drop_call i) =
    (i ≢ identity)
    ⊎ ((f : PendingFetch) × (HashMap.get identity r.fetches ≡ some f) × (1 < f.owners))

abbrev pub AreOthers : Registry → ℕ → List Call → Type 0
AreOthers r identity [] = Unit
AreOthers r identity (c ∷ cs) = IsOther r identity c × AreOthers (after_call r c) identity cs

positive : (n : ℕ) → ltb 0 (suc n) ≡ true
positive n = ground arith

less_than : (n : ℕ) → ltb 1 n ≡ true → suc (n - 2) ≡ n - 1
less_than n b = ground arith

last : (f g : PendingFetch) → ltb 1 f.owners ≡ false → 1 < g.owners → some f ≡ some g → ⊥
last f g b l e =
    let q : f ≡ g = ground arith in
    let c : f.owners ≡ g.owners = ap (λ (x : PendingFetch). x.owners) q in ground arith

none_ne_some : {A : Type 0} → (x : A) → ¬ (none ≡ some x)
none_ne_some x e = ground arith

some-injective : {a b : ℕ} → some a ≡ some b → a ≡ b
some-injective e = ground arith

upgraded-there : (o : Option PendingFetch) (f : PendingFetch) → upgraded o ≡ some f → o ≡ some f
upgraded-there none f e = e
upgraded-there (some g) f e = elim (Bool-cases (ltb 0 g.owners)) [
  | inl b ↦ rw b at e
  | inr b ↦ absurd (none_ne_some f (rw b at e))
]

abbrev recounted : Option PendingFetch → ℕ → Option PendingFetch
recounted none n = none
recounted (some f) n = some (record f { owners = suc n })

new_fetch-IsShared : (r : Registry) (key : ℕ) → IsShared (new_fetch r key).1 key (new_fetch r key).0
new_fetch-IsShared r key = record {
  owners = 0;
  registered = HashMap.get-insert_self key r.next_identity r.entries;
  owned = HashMap.get-insert_self r.next_identity (record { key = key; owners = 1 }) r.fetches;
  older = omega arith;
}

module _ (r : Registry) (key identity : ℕ) (h : IsShared r key identity) where
  -- A new fetch for another key.
  other-new_fetch : (k : ℕ) → k ≢ key → IsShared (new_fetch r k).1 key identity
  other-new_fetch k n = record {
    owners = h.owners;
    registered = HashMap.get-insert_ne k key r.next_identity r.entries n ∙ h.registered;
    owned =
        HashMap.get-insert_ne r.next_identity identity (record { key = k; owners = 1 }) r.fetches
          (λ e. absurd (omega (arith, h.older)))
        ∙ h.owned;
    older = omega (arith, h.older);
  }

  upgraded-owned :
      (i : ℕ) → i ≡ identity → upgrade r i ≡ some (record { key = key; owners = suc h.owners })
  upgraded-owned i e =
      ap (λ (j : ℕ). upgrade r j) e ∙ ap upgraded h.owned ∙ rw (positive h.owners) refl

  -- A caller that joins by the key gets the fetch.
  join-same : (join r key).0 ≡ identity
  unfolding join
  join-same = rw (h.registered, upgraded-owned identity refl, join) refl

  -- The count of a fetch changes, and stays at least one if it is this fetch.
  counted-IsShared :
      (i : ℕ) (f : PendingFetch) (n : ℕ)
      → HashMap.get i r.fetches ≡ some f
      → IsShared
          (record r { fetches = HashMap.insert i (record f { owners = suc n }) r.fetches })
          key
          identity
  counted-IsShared i f n e = elim (ℕ_discrete i identity) [
    | yes q ↦ record {
      owners = n;
      registered = h.registered;
      owned =
          ap
            (λ (j : ℕ).
              HashMap.get identity (HashMap.insert j (record f { owners = suc n }) r.fetches))
            q
          ∙ HashMap.get-insert_self identity (record f { owners = suc n }) r.fetches
          ∙ ap (λ (o : Option PendingFetch). recounted o n)
              (sym e ∙ ap (λ (j : ℕ). HashMap.get j r.fetches) q ∙ h.owned);
      older = h.older;
    }
    | no q ↦ record {
      owners = h.owners;
      registered = h.registered;
      owned = HashMap.get-insert_ne i identity (record f { owners = suc n }) r.fetches q ∙ h.owned;
      older = h.older;
    }
  ]

  join-IsShared : (k : ℕ) → IsShared (join r k).1 key identity
  unfolding join
  join-IsShared k = elim (Option-cases (HashMap.get k r.entries)) [
    | inl e ↦
        rw (e, join)
          (other-new_fetch k (λ q.
            absurd
              (ground (arith, sym e ∙ ap (λ (j : ℕ). HashMap.get j r.entries) q ∙ h.registered))))
    | inr (i, e) ↦ elim (Option-cases (upgrade r i)) [
      | inl u ↦
          rw (e, u, join)
            (other-new_fetch k (λ q. absurd (
              none_ne_some _ (
                sym u
                ∙ upgraded-owned i (
                    some-injective
                      (sym e ∙ ap (λ (j : ℕ). HashMap.get j r.entries) q ∙ h.registered))))))
      | inr (f, u) ↦ rw (e, u, join) (counted-IsShared i f f.owners (upgraded-there _ f u))
    ]
  ]

  remove-IsShared : (i : ℕ) → i ≢ identity → IsShared (remove_from_registry r i) key identity
  unfolding remove_from_registry
  remove-IsShared i n = elim (Option-cases (HashMap.get i r.fetches)) [
    | inl e ↦ rw (e, remove_from_registry) h
    | inr (f, e) ↦ elim (Option-cases (HashMap.get f.key r.entries)) [
      | inl g ↦ rw (e, g, remove_from_registry) h
      | inr (j, g) ↦ elim (Bool-cases (j == i)) [
        | inr b ↦ rw (e, g, b, remove_from_registry) h
        | inl b ↦
            rw (e, g, b, remove_from_registry)
              (record {
                owners = h.owners;
                registered =
                    HashMap.get-remove_ne f.key key r.entries (λ q. n (
                      sym ((==_iff j i).0 b)
                      ∙ some-injective
                          (sym g ∙ ap (λ (k : ℕ). HashMap.get k r.entries) q ∙ h.registered)))
                    ∙ h.registered;
                owned = h.owned;
                older = h.older;
              })
      ]
    ]
  ]

  dropped-IsShared :
      (i : ℕ)
      → i ≢ identity
      → (let gone = remove_from_registry r i in
          IsShared (record gone { fetches = HashMap.remove i gone.fetches }) key identity)
  dropped-IsShared i n =
      let g = remove-IsShared i n in
      record {
        owners = g.owners;
        registered = g.registered;
        owned = HashMap.get-remove_ne i identity (remove_from_registry r i).fetches n ∙ g.owned;
        older = g.older;
      }

  drop-IsShared :
      (i : ℕ) → IsOther r identity (drop_call i) → IsShared (drop_owner r i) key identity
  unfolding drop_owner
  drop-IsShared i n = elim (Option-cases (HashMap.get i r.fetches)) [
    | inl e ↦ rw (e, drop_owner) h
    | inr (f, e) ↦ elim (Bool-cases (ltb 1 f.owners)) [
      | inl b ↦
          rw (e, b, drop_owner)
            (subst
              (λ (c : ℕ).
                IsShared
                  (record r { fetches = HashMap.insert i (record f { owners = c }) r.fetches }) key
                  identity)
              (less_than f.owners b) (counted-IsShared i f (f.owners - 2) e))
      | inr b ↦
          rw (e, b, drop_owner)
            (dropped-IsShared i (λ q. elim n [
              | inl m ↦ m q
              | inr (g, p, l) ↦
                  absurd (last f g b l (sym e ∙ ap (λ (j : ℕ). HashMap.get j r.fetches) q ∙ p))
            ]))
    ]
  ]

after_call-IsShared :
    (r : Registry) (key identity : ℕ)
    → IsShared r key identity
    → (c : Call) → IsOther r identity c
    → IsShared (after_call r c) key identity
unfolding after_call
after_call-IsShared r key identity h (join_call k) o = join-IsShared r key identity h k
after_call-IsShared r key identity h (remove_call i) o = remove-IsShared r key identity h i o
after_call-IsShared r key identity h (drop_call i) o = drop-IsShared r key identity h i o

-- Let a fetch be registered for a key, with an owner. After calls of which none takes it out of the
-- registry and none is by its last owner, a caller that joins by the key gets this fetch.
pub join-after_calls :
    (r : Registry) (key identity : ℕ) (cs : List Call)
    → IsShared r key identity
    → AreOthers r identity cs
    → (join (after_calls r cs) key).0 ≡ identity
unfolding after_calls
join-after_calls r key identity [] h o = join-same r key identity h
join-after_calls r key identity (c ∷ cs) h o =
    join-after_calls (after_call r c) key identity cs (after_call-IsShared r key identity h c o.0)
      o.1
