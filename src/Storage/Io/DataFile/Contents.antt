-- ===== src/Storage/Io/DataFile/Contents.antt =====
-- The reads and writes of feuer-storage/src/file.rs as accesses to the bytes of a file.
use mathlib.Core.Path.{subst}
use feuer.Base.{
  ℕ, zero, suc, ◌+◌, ◌-◌, ◌%◌, ◌≤◌, ◌<◌, ◌≡◌, ◌⊎◌, inl, inr, refl, ap, sym, ◌∙◌, List, [], Option,
  none, some, Bool, false, arith, length, Bool-cases, Option-cases, leb, ltb, ◌==◌, ◌||◌,
}
use feuer.Storage.Io.{IoError, Bytes, direct_io_alignment_bytes}
use feuer.Storage.Io.Transfers.{byte_at}
use feuer.Storage.Io.Pieces.{bytes_from, slice-bytes_from, bytes_from-list}
use feuer.Storage.Io.Writing.{
  Kernel, IsHonest, Write, written, failed, panic, write_padded, IsWritten, write_padded-IsWritten,
}
use feuer.Storage.Io.Reading.{read_bytes-exact}
use feuer.Storage.Io.DataFile.{
  DataFileError, success, failure, io, read_range, write_range, payload_disk_bytes, read_slice,
  read_at, read_payload, write_padded_at, check_range_fits_file, range_exceeds_capacity, u64_limit,
  as_result, bytes_of,
}

-- Let the kernel keep to its manual over the file. A payload read does not panic and either fails
-- with an error of the read or gives exactly the bytes asked for, at any address, aligned or not.
pub read_payload-exact :
    (kernel : Kernel) (file : ℕ → ℕ) (allocated : Option ℕ) (address len : ℕ)
    → IsHonest file kernel
    → ((e : IoError) × (read_payload kernel allocated address len
          ≡ some (failure (io read_range e))))
      ⊎ ((capacity : ℕ) × (allocated ≡ some capacity)
          × (read_payload kernel allocated address len
              ≡ some (success (bytes_from file address len, capacity))))
unfolding read_payload read_slice
read_payload-exact kernel file allocated address len honest =
    let padding = address % direct_io_alignment_bytes in
    let all = payload_disk_bytes (padding + len) in
    elim (read_bytes-exact kernel file allocated (address - padding) all honest (omega arith)
      (omega arith)) [
        | inl (e, q) ↦ inl (e, rw q refl)
        | inr (c, a, q) ↦ inr (
          c,
          a,
          rw q (
              ap (λ (l : List ℕ). some (success (l, c)))
                (slice-bytes_from file (address - padding) padding len all (omega arith)
                  ∙ ap (λ (t : ℕ). bytes_from file t len) (omega arith))),
        )
      ]

-- What a successful write leaves in the file.
abbrev pub Holds : ℕ → ℕ → List ℕ → (ℕ → ℕ) → (ℕ → ℕ) → Type 0
Holds offset len content file after =
    ((x : ℕ) → (x < offset) ⊎ (offset + len ≤ x) → after x ≡ file x)
    × ((i : ℕ) → i < len → after (offset + i) ≡ byte_at content i)

Holds-as_result :
    (offset len : ℕ) (content : List ℕ) (file after : ℕ → ℕ) (w : Write)
    → IsWritten offset 0 len content file w
    → as_result w ≡ some (none, after)
    → Holds offset len content file after
Holds-as_result offset len content file after (written f) (o, i) e =
    subst (λ (g : ℕ → ℕ). Holds offset len content file g) (same f after e)
      (
        λ x h. o x (elim h [ inl p ↦ inl (omega arith) | inr p ↦ inr p ]),
        λ k h. i k (omega arith) h,
      )
  where
    same :
        (f g : ℕ → ℕ)
        → ◌≡◌ {A = Option (Option DataFileError × (ℕ → ℕ))} (some (none, f)) (some (none, g))
        → f ≡ g
    same f g e = cc
Holds-as_result offset len content file after (failed x f) h e = absurd (ground arith)
Holds-as_result offset len content file after panic h e = absurd h

-- Let the kernel keep to its manual, and let the offset and the length be multiples of 4096. After a
-- padded write without an error the range of the file holds the bytes, cut at the length, and zeros
-- behind them, and the rest of the file is as before.
pub write_padded_at-Holds :
    (kernel : Kernel) (read_file : ℕ → ℕ) (granted : ℕ → Bool) (capacity offset len : ℕ)
    (bytes : Bytes) (file after : ℕ → ℕ)
    → IsHonest read_file kernel
    → offset % direct_io_alignment_bytes ≡ 0
    → len % direct_io_alignment_bytes ≡ 0
    → write_padded_at kernel granted capacity offset len bytes file ≡ some (none, after)
    → Holds offset len bytes.content file after
unfolding write_padded_at
write_padded_at-Holds kernel read_file granted capacity offset len bytes file after honest a w e =
    elim (Option-cases (check_range_fits_file write_range offset len capacity)) [
      | inr (x, q) ↦ absurd (ground arith)
      | inl q ↦
          Holds-as_result offset len bytes.content file after
            (write_padded kernel granted offset len bytes file)
            (write_padded-IsWritten kernel read_file granted offset len bytes file honest a w)
            (rw (q, write_padded_at) at e)
    ]

-- Let the kernels of the write and of the read keep to their manual, let the offset and the length
-- be multiples of 4096, and let the bytes fit the length. After a write without an error, a read of
-- the payload fails with an error of the read or gives back the bytes.
pub read_payload-write_padded_at :
    (writer reader : Kernel) (granted : ℕ → Bool) (allocated : Option ℕ) (capacity offset len : ℕ)
    (bytes : Bytes) (file after : ℕ → ℕ)
    → IsHonest file writer
    → IsHonest after reader
    → offset % direct_io_alignment_bytes ≡ 0
    → len % direct_io_alignment_bytes ≡ 0
    → length bytes.content ≤ len
    → write_padded_at writer granted capacity offset len bytes file ≡ some (none, after)
    → ((e : IoError) × (read_payload reader allocated offset (length bytes.content)
          ≡ some (failure (io read_range e))))
      ⊎ ((buffer : ℕ) × (read_payload reader allocated offset (length bytes.content)
            ≡ some (success (bytes.content, buffer))))
read_payload-write_padded_at writer reader granted allocated capacity offset len bytes file after hw
      hr a w fits e =
    let (rest, held) =
      write_padded_at-Holds writer file granted capacity offset len bytes file after hw a w e in
    elim (read_payload-exact reader after allocated offset (length bytes.content) hr) [
      | inl x ↦ inl x
      | inr (c, g, q) ↦ inr (
        c,
        q
            ∙ ap (λ (l : List ℕ). some (success (l, c)))
                (bytes_from-list after offset bytes.content (λ i h. held i (omega arith))),
      )
    ]

no_bytes : (file : ℕ → ℕ) (offset len : ℕ) → len ≡ 0 → bytes_from file offset len ≡ []
unfolding bytes_from
no_bytes file offset zero e = refl
no_bytes file offset (suc n) e = absurd (omega arith)

-- Let the kernel keep to its manual over the file. A read at an offset is refused exactly if the
-- range ends behind the capacity or leaves 64 bits. Otherwise it fails with an error of the read or
-- gives exactly the bytes asked for.
pub read_at-Answer :
    (kernel : Kernel) (file : ℕ → ℕ) (allocated : Option ℕ) (capacity offset len : ℕ)
    → IsHonest file kernel
    → (((capacity < offset + len) ⊎ (u64_limit ≤ offset + len))
        × (read_at kernel allocated capacity offset len
            ≡ some (failure (range_exceeds_capacity read_range offset len capacity))))
      ⊎ ((offset + len ≤ capacity)
          × (offset + len < u64_limit)
          × (((e : IoError) × (read_at kernel allocated capacity offset len
                  ≡ some (failure (io read_range e))))
              ⊎ (read_at kernel allocated capacity offset len
                  ≡ some (success (bytes_from file offset len)))))
unfolding read_at check_range_fits_file read_payload
read_at-Answer kernel file allocated capacity offset len honest =
    elim (Bool-cases (leb u64_limit (offset + len) || ltb capacity (offset + len))) [
      | inl over ↦ inl (ground arith, rw (over, read_at, check_range_fits_file) refl)
      | inr fits ↦ inr (
        ground arith,
        ground arith,
        elim (Bool-cases (len == 0)) [
          | inl z ↦ inr (
              rw (fits, z, read_at, check_range_fits_file)
                (ap (λ (l : List ℕ). some (success l))
                  (sym (no_bytes file offset len (ground arith)))))
          | inr z ↦ elim (read_payload-exact kernel file allocated offset len honest) [
            | inl (e, q) ↦ inl (e, read_at_eq fits z ∙ ap bytes_of q)
            | inr (c, g, q) ↦ inr (read_at_eq fits z ∙ ap bytes_of q)
          ]
        ],
      )
    ]
  where
    read_at_eq :
        (leb u64_limit (offset + len) || ltb capacity (offset + len)) ≡ false
        → (len == 0) ≡ false
        → read_at kernel allocated capacity offset len
          ≡ bytes_of (read_payload kernel allocated offset len)
    read_at_eq f z = rw (f, z, read_at, check_range_fits_file) refl
