-- ===== src/Cache/Answers.antt =====
-- What callers of feuer/src/cache.rs are answered.
use mathlib.Core.Path.{subst}
use feuer.Base.{ℕ, ◌≡◌, inl, inr, ap, List, [], ◌∷◌, Option, none, some, Bool, length, Option-cases}
use feuer.Cache.{
  MemoryTier, DiskTier, LookupOutcome, Fetched, GetOrFetch, got, CacheInner, Others, get_cached,
  get_or_fetch_by_hash,
}
use feuer.Cache.Coherence.{
  IsAnswer, IsFetched, IsJoined, IsFound, IsCoherent, get_cached-IsCoherent,
  get_or_fetch-IsCoherent,
}

-- A call of a caller.
pub data Request : Type 0 where
  get_request : ℕ → Request
  fetch_request :
      (key : ℕ) (decision : Bool) (joined : Option (LookupOutcome × GetOrFetch)) (answer : Fetched)
      → Request

-- A source that gives its objects or fails, to this call and to the one that it joins.
abbrev pub IsServed : (ℕ → List ℕ) → List Request → Type 0
IsServed source [] = Unit
IsServed source (get_request key ∷ rs) = IsServed source rs
IsServed source (fetch_request key decision joined answer ∷ rs) =
    IsJoined (source key) joined × IsFetched (source key) answer × IsServed source rs

-- The answers to calls, one after the other, with what the others do at each wait of each call.
unfoldable pub serve_requests :
    (m : MemoryTier) (d : DiskTier)
    → (ℕ → Others m d)
    → CacheInner m.Memory d.Disk
    → List Request
    → List (Option GetOrFetch)
serve_requests m d others c [] = []
serve_requests m d others c (get_request key ∷ rs) =
    let (bytes, after) = get_cached m d (others (length rs)) c key in
    (elim bytes [ none ↦ none | some b ↦ some (got b) ]) ∷ serve_requests m d others after rs
serve_requests m d others c (fetch_request key decision joined answer ∷ rs) =
    let (result, after) =
      get_or_fetch_by_hash m d (others (length rs)) c key decision joined answer in
    some result ∷ serve_requests m d others after rs

-- What the source alone would let a caller see: the object, an error, or for `get` a miss.
abbrev pub AreAnswers : (ℕ → List ℕ) → List Request → List (Option GetOrFetch) → Type 0
AreAnswers source [] [] = Unit
AreAnswers source [] (a ∷ answers) = ⊥
AreAnswers source (r ∷ rs) [] = ⊥
AreAnswers source (get_request key ∷ rs) (none ∷ answers) = AreAnswers source rs answers
AreAnswers source (get_request key ∷ rs) (some a ∷ answers) =
    (a ≡ got (source key)) × AreAnswers source rs answers
AreAnswers source (fetch_request key decision joined answer ∷ rs) (none ∷ answers) = ⊥
AreAnswers source (fetch_request key decision joined answer ∷ rs) (some a ∷ answers) =
    IsAnswer (source key) a × AreAnswers source rs answers

-- Let the tiers hold nothing but objects of the source, let the source give its objects or fail, and
-- let other calls leave nothing else in the tiers. Then calls are answered as the source would: a
-- fetch with the object or an error of a callback, a lookup with the object or with nothing.
pub serve_requests-AreAnswers :
    (m : MemoryTier) (d : DiskTier) (source : ℕ → List ℕ) (others : ℕ → Others m d)
    (c : CacheInner m.Memory d.Disk) (rs : List Request)
    → ((n i : ℕ) (e : CacheInner m.Memory d.Disk)
        → IsCoherent m d source e
        → IsCoherent m d source (others n i e))
    → IsCoherent m d source c
    → IsServed source rs
    → AreAnswers source rs (serve_requests m d others c rs)
unfolding serve_requests
serve_requests-AreAnswers m d source others c [] peaceful h s = tt
serve_requests-AreAnswers m d source others c (get_request key ∷ rs) peaceful h s =
    let (after, found) =
      get_cached-IsCoherent m d source (others (length rs)) (peaceful (length rs)) c key h in
    let rest =
      serve_requests-AreAnswers m d source others (get_cached m d (others (length rs)) c key).1 rs
        peaceful after s in
    elim (Option-cases (get_cached m d (others (length rs)) c key).0) [
      | inl q ↦ rw q rest
      | inr (b, q) ↦
          rw q (ap got (subst (λ (o : Option (List ℕ)). IsFound (source key) o) q found), rest)
    ]
serve_requests-AreAnswers m d source others c (fetch_request key decision joined answer ∷ rs)
      peaceful h (j, f, s) =
    let (after, right) =
      get_or_fetch-IsCoherent m d source (others (length rs)) (peaceful (length rs)) c key decision
        joined answer j f h in
    (
      right,
      serve_requests-AreAnswers m d source others
          (get_or_fetch_by_hash m d (others (length rs)) c key decision joined answer).1 rs peaceful
          after s,
    )
