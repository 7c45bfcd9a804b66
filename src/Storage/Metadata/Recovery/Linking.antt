-- ===== src/Storage/Metadata/Recovery/Linking.antt =====
-- Chunks of metadata linked to each other, and the cut of the last link at the end of
-- load_metadata_chain of feuer-storage/src/disk_cache/recovery.rs.
use mathlib.Core.Path.{subst}
use feuer.Base.{
  ℕ, suc, ◌+◌, ◌-◌, ◌/◌, ◌%◌, ◌≡◌, ◌⊎◌, inl, inr, refl, ap, sym, ◌∙◌, List, [], ◌∷◌, none, some,
  true, false, ltb, ◌==◌, arith, length, Bool-cases, Option-cases, ==_iff, get_elem?, set,
}
use feuer.Storage.Allocation.{chunk_bytes}
use feuer.Storage.Metadata.{
  MetadataChunk, MetadataChunks, no_chunk, link_last, set_last_chunk_link,
  entries_per_metadata_chunk,
}
use feuer.Storage.Metadata.Recovery.{Loaded, loaded_pages}

-- A chunk that is loaded from an address: its reservation is the chunk at the address.
pub record IsLoaded (address : ℕ) (chunk : MetadataChunk) : Type 0 where
  pub aligned : address % chunk_bytes ≡ 0
  pub placed :
      chunk.reserved_chunk.chunk_numbers
      ≡ record { start = address / chunk_bytes; end = address / chunk_bytes + 1 }
  pub complete : length chunk.entries ≡ entries_per_metadata_chunk

-- Each chunk lies where the link before it points to, and the last has no link.
abbrev pub IsChain : ℕ → List MetadataChunk → Type 0
IsChain address [] = Unit
IsChain address (c ∷ []) = IsLoaded address c × (c.next_chunk_address ≡ no_chunk)
IsChain address (c ∷ d ∷ ds) = IsLoaded address c × IsChain c.next_chunk_address (d ∷ ds)

-- The loop stopped at the last link, or at a chunk without a valid one.
abbrev pub IsOpenChain : ℕ → List MetadataChunk → ℕ → Type 0
IsOpenChain address [] last = last ≡ address
IsOpenChain address (c ∷ []) last =
    IsLoaded address c × ((last ≡ address) ⊎ (last ≡ c.next_chunk_address))
IsOpenChain address (c ∷ d ∷ ds) last =
    IsLoaded address c × IsOpenChain c.next_chunk_address (d ∷ ds) last

pub cons-IsOpenChain :
    (address last : ℕ) (c : MetadataChunk) (cs : List MetadataChunk)
    → IsLoaded address c
    → IsOpenChain c.next_chunk_address cs last
    → IsOpenChain address (c ∷ cs) last
cons-IsOpenChain address last c [] h o = (h, inr o)
cons-IsOpenChain address last c (d ∷ ds) h o = (h, o)

-- A chain that ended at its last link.
closed-IsChain :
    (address last : ℕ) (cs : List MetadataChunk)
    → IsOpenChain address cs last
    → last ≡ no_chunk
    → IsChain address cs
closed-IsChain address last [] o e = tt
closed-IsChain address last (c ∷ []) (h, o) e =
    (h, elim o [ inl here ↦ absurd (omega (arith, h.aligned, e, here)) | inr link ↦ sym link ∙ e ])
closed-IsChain address last (c ∷ d ∷ ds) (h, o) e =
    (h, closed-IsChain c.next_chunk_address last (d ∷ ds) o e)

abbrev link_at : List MetadataChunk → ℕ → ℕ → List MetadataChunk
link_at chunks i link = elim (get_elem? chunks i) [
  | none ↦ chunks
  | some last ↦ set chunks i (record last { next_chunk_address = link })
]

link_at-suc :
    (c : MetadataChunk) (cs : List MetadataChunk) (i link : ℕ)
    → link_at (c ∷ cs) (suc i) link ≡ c ∷ link_at cs i link
link_at-suc c cs i link = elim (Option-cases (get_elem? cs i)) [
  | inl e ↦ rw (e, link_at) refl
  | inr (x, e) ↦ rw (e, link_at) refl
]

abbrev last_cut : List MetadataChunk → ℕ → List MetadataChunk
last_cut [] link = []
last_cut (c ∷ []) link = record c { next_chunk_address = link } ∷ []
last_cut (c ∷ d ∷ ds) link = c ∷ last_cut (d ∷ ds) link

link_last-last_cut : (cs : List MetadataChunk) (link : ℕ) → link_last cs link ≡ last_cut cs link
link_last-last_cut [] link = refl
link_last-last_cut (c ∷ []) link = refl
link_last-last_cut (c ∷ d ∷ ds) link =
    let index : suc (suc (length ds)) - 1 ≡ suc (suc (length ds) - 1) = omega arith in
    ap (λ (i : ℕ). link_at (c ∷ d ∷ ds) i link) index
    ∙ link_at-suc c (d ∷ ds) (suc (length ds) - 1) link
    ∙ ap (λ (l : List MetadataChunk). c ∷ l) (link_last-last_cut (d ∷ ds) link)

-- The same for a chain whose last link is cut.
cut-IsChain :
    (address last : ℕ) (cs : List MetadataChunk)
    → IsOpenChain address cs last
    → IsChain address (last_cut cs no_chunk)
cut-IsChain address last [] o = tt
cut-IsChain address last (c ∷ []) (h, o) =
    (record { aligned = h.aligned; placed = h.placed; complete = h.complete }, refl)
cut-IsChain address last (c ∷ d ∷ []) (h, o) = (h, cut-IsChain c.next_chunk_address last (d ∷ []) o)
cut-IsChain address last (c ∷ d ∷ e ∷ ds) (h, o) =
    (h, cut-IsChain c.next_chunk_address last (d ∷ e ∷ ds) o)

linked-chunks :
    (m : MetadataChunks) (cs : List MetadataChunk)
    → m.chunks ≡ cs
    → (set_last_chunk_link m no_chunk).chunks ≡ last_cut cs no_chunk
unfolding set_last_chunk_link
linked-chunks m [] e =
    let b : ltb 0 (length m.chunks) ≡ false = ground (arith, ap length e) in
    rw (b, set_last_chunk_link) e
linked-chunks m (c ∷ cs) e =
    let b : ltb 0 (length m.chunks) ≡ true = ground (arith, ap length e) in
    rw (b, set_last_chunk_link)
      (link_last-last_cut m.chunks no_chunk
        ∙ ap (λ (l : List MetadataChunk). last_cut l no_chunk) e)

pub loaded-IsChain :
    (address : ℕ) (l : Loaded)
    → IsOpenChain address l.loaded_chunks l.last_address
    → IsChain address (loaded_pages l).chunks
loaded-IsChain address l o = elim (Bool-cases (l.last_address == no_chunk)) [
  | inl e ↦ rw e (
      closed-IsChain address l.last_address l.loaded_chunks o
        ((==_iff l.last_address no_chunk).0 e))
  | inr e ↦ rw e (
      subst (λ (cs : List MetadataChunk). IsChain address cs)
        (sym (linked-chunks _ l.loaded_chunks refl))
        (cut-IsChain address l.last_address l.loaded_chunks o))
]
