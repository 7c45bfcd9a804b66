-- ===== src/Cache/PendingFetches.antt =====
-- feuer/src/cache/pending_fetches.rs: the registry of fetches that callers share. A key stands for
-- an object key with an error type. A fetch has an identity and a count of its owners; the registry
-- refers to it without owning it. The result of a fetch is its owners' matter.
pub mod Sharing
use mathlib.Core.Path.{subst}
use feuer.Base.{
  ℕ, suc, ◌-◌, ◌<◌, ◌≡◌, ◌≢◌, ◌⊎◌, inl, inr, refl, ap, sym, ◌∙◌, List, [], ◌∷◌, Option, none, some,
  true, false, ◌==◌, ltb, if◌then◌else◌, arith, ℕ_discrete, Bool-cases, Option-cases, ==_iff,
}
use feuer.Base.HashMap
use feuer.Base.HashMap.{HashMap}

pub record PendingFetch : Type 0 where
  pub key : ℕ
  pub owners : ℕ

pub record Registry : Type 0 where
  pub entries : HashMap ℕ
  pub fetches : HashMap PendingFetch
  pub next_identity : ℕ

unfoldable pub empty_registry : Registry
empty_registry = record { entries = []; fetches = []; next_identity = 0 }

-- `Weak::upgrade`: a fetch with an owner.
abbrev pub upgraded : Option PendingFetch → Option PendingFetch
upgraded none = none
upgraded (some f) = if ltb 0 f.owners then some f else none

abbrev pub upgrade : Registry → ℕ → Option PendingFetch
upgrade r identity = upgraded (HashMap.get identity r.fetches)

abbrev pub new_fetch : Registry → ℕ → ℕ × Registry
new_fetch r key = (
  r.next_identity,
  record {
    entries = HashMap.insert key r.next_identity r.entries;
    fetches = HashMap.insert r.next_identity (record { key = key; owners = 1 }) r.fetches;
    next_identity = suc r.next_identity;
  },
)

-- The identity of the fetch that the caller now owns too.
unfoldable pub join : Registry → ℕ → ℕ × Registry
join r key = elim (HashMap.get key r.entries) [
  | none ↦ new_fetch r key
  | some identity ↦ elim (upgrade r identity) [
    | none ↦ new_fetch r key
    | some f ↦ (
      identity,
      record r { fetches = HashMap.insert identity (record f { owners = suc f.owners }) r.fetches },
    )
  ]
]

-- The registry's entry goes only if it is this fetch.
unfoldable pub remove_from_registry : Registry → ℕ → Registry
remove_from_registry r identity = elim (HashMap.get identity r.fetches) [
  | none ↦ r
  | some f ↦ elim (HashMap.get f.key r.entries) [
    | none ↦ r
    | some registered ↦
        if registered == identity then record r { entries = HashMap.remove f.key r.entries } else r
  ]
]

-- An owner goes. `Drop for PendingFetch` runs when the last one does.
unfoldable pub drop_owner : Registry → ℕ → Registry
unfolding remove_from_registry
drop_owner r identity = elim (HashMap.get identity r.fetches) [
  | none ↦ r
  | some f ↦
      if ltb 1 f.owners
      then record r {
        fetches = HashMap.insert identity (record f { owners = f.owners - 1 }) r.fetches;
      }
      else (let gone = remove_from_registry r identity in
          record gone { fetches = HashMap.remove identity gone.fetches })
]

pub data Call : Type 0 where
  join_call remove_call drop_call : ℕ → Call

unfoldable pub after_call : Registry → Call → Registry
unfolding join remove_from_registry drop_owner
after_call r (join_call key) = (join r key).1
after_call r (remove_call identity) = remove_from_registry r identity
after_call r (drop_call identity) = drop_owner r identity

unfoldable pub after_calls : Registry → List Call → Registry
after_calls r [] = r
after_calls r (c ∷ cs) = after_calls (after_call r c) cs
