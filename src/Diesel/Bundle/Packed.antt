-- ===== src/Diesel/Bundle/Packed.antt =====
-- Bundle files written chunk by chunk, as loadPackageBundle and ReadContents of
-- src/dbutil/DB.cpp read them.
use raid_super_blt.Base.{
  ℕ, zero, suc, ◌+◌, ◌^◌, ◌≤◌, ◌<◌, ◌≡◌, refl, ap, ◌∙◌, subst, some, List, [], ◌∷◌, ◌++◌,
  append_assoc, length, take, drop, flatten, length-append, le_bytes, length-le_bytes, slice?,
  slice?-append, read_le?-append, read_le?, All, true, false, lt→ltb, ltb, arith,
}
use raid_super_blt.Outcome.{Outcome, ok, throws, value_or, ◌>>=◌}
use raid_super_blt.Datastore.{Disk}
use raid_super_blt.Diesel.{DieselBundle, DslFile, has_length}
use raid_super_blt.Diesel.Contents.{Uncompress, trailing_size, fetch_block, read_contents}
use raid_super_blt.Diesel.Contents.Chunks.{Fetches, AllFull}
use raid_super_blt.Diesel.Contents.Range.{read_contents_range}
use raid_super_blt.Diesel.Bundle.{chunk_offsets_from, load_package_bundle}

-- A chunk is its length and its bytes.
pub packed : List (List ℕ) → List ℕ
packed [] = []
packed (c ∷ cs) = le_bytes 4 (length c) ++ (c ++ packed cs)

pub bundle_file : ℕ → List (List ℕ) → List ℕ
bundle_file size cs = le_bytes 8 size ++ packed cs

-- Where the chunks begin.
pub offsets : ℕ → List (List ℕ) → List ℕ
offsets pos [] = []
offsets pos (c ∷ cs) = pos ∷ offsets (pos + 4 + length c) cs

abbrev pub AreSmall : List (List ℕ) → Type 0
AreSmall = All (λ c. length c < 2 ^ 32)

-- Past one chunk.
past : List ℕ → List ℕ → List ℕ
past before c = before ++ (le_bytes 4 (length c) ++ c)

length-past : (before c : List ℕ) → length (past before c) ≡ length before + 4 + length c
unfolding past
length-past before c = omega (
  arith,
  length-append before (le_bytes 4 (length c) ++ c),
  length-append (le_bytes 4 (length c)) c,
  length-le_bytes 4 (length c),
)

past-packed :
    (before c : List ℕ) (cs : List (List ℕ))
    → past before c ++ packed cs ≡ before ++ packed (c ∷ cs)
unfolding past packed
past-packed before c cs =
    append_assoc before (le_bytes 4 (length c) ++ c) (packed cs)
    ∙ ap (λ t. before ++ t) (append_assoc (le_bytes 4 (length c)) c (packed cs))

-- The length of a chunk, where it stands.
chunk_word :
    (before c : List ℕ) (cs : List (List ℕ))
    → length c < 2 ^ 32
    → read_le? (length before) 4 (before ++ packed (c ∷ cs)) ≡ some (length c)
unfolding packed
chunk_word before c cs small = read_le?-append before (c ++ packed cs) 4 (length c) small

more_left :
    (before c : List ℕ) (cs : List (List ℕ))
    → ltb (length before) (length (before ++ packed (c ∷ cs))) ≡ true
unfolding packed
more_left before c cs = lt→ltb (length before) (length (before ++ packed (c ∷ cs))) (
    omega (
      arith,
      length-append before (le_bytes 4 (length c) ++ (c ++ packed cs)),
      length-append (le_bytes 4 (length c)) (c ++ packed cs),
      length-le_bytes 4 (length c),
    ))

length-packed_nil : length (packed []) ≡ 0
unfolding packed
length-packed_nil = refl

offsets-packed :
    (fuel : ℕ) (before : List ℕ) (cs : List (List ℕ))
    → AreSmall cs
    → length cs < fuel
    → chunk_offsets_from fuel (before ++ packed cs) (length before)
      ≡ ok (offsets (length before) cs)
unfolding chunk_offsets_from offsets
offsets-packed zero before cs small enough = absurd (omega arith)
offsets-packed (suc fuel) before [] small enough = rw no_more refl
  where
    no_more : ltb (length before) (length (before ++ packed [])) ≡ false
    no_more = ground (arith, length-append before (packed []), length-packed_nil)
offsets-packed (suc fuel) before (c ∷ cs) small enough =
    let n = length before + 4 + length c in
    let rest : chunk_offsets_from fuel (before ++ packed (c ∷ cs)) n ≡ ok (offsets n cs) =
      subst (λ k. chunk_offsets_from fuel (before ++ packed (c ∷ cs)) k ≡ ok (offsets k cs))
        (length-past before c)
        (subst
          (λ fi.
            chunk_offsets_from fuel fi (length (past before c))
            ≡ ok (offsets (length (past before c)) cs))
          (past-packed before c cs)
          (offsets-packed fuel (past before c) cs small.1 (omega arith))) in
    rw (more_left before c cs, chunk_word before c cs small.0, rest) refl

-- One chunk, decompressed.
unfoldable pub unpack : Uncompress → List ℕ → Outcome (List ℕ)
unpack uncompress c = do dst_size ← trailing_size c; value_or (uncompress dst_size c) throws

-- `Unpacks uncompress cs bs`: each chunk decompresses to the block beside it.
abbrev pub Unpacks : Uncompress → List (List ℕ) → List (List ℕ) → Type 0
Unpacks uncompress [] [] = Unit {0}
Unpacks uncompress [] (b ∷ bs) = ⊥
Unpacks uncompress (c ∷ cs) [] = ⊥
Unpacks uncompress (c ∷ cs) (b ∷ bs) = (unpack uncompress c ≡ ok b) × Unpacks uncompress cs bs

chunk_bytes :
    (before c : List ℕ) (cs : List (List ℕ))
    → slice? (length before + 4) (length c) (before ++ packed (c ∷ cs)) ≡ some c
unfolding packed
chunk_bytes before c cs =
    let head = before ++ le_bytes 4 (length c) in
    let at : length head ≡ length before + 4 =
      omega (arith, length-append before (le_bytes 4 (length c)), length-le_bytes 4 (length c)) in
    subst (λ k. slice? k (length c) (before ++ packed (c ∷ cs)) ≡ some c) at
      (subst (λ fi. slice? (length head) (length c) fi ≡ some c)
        (append_assoc before (le_bytes 4 (length c)) (c ++ packed cs))
        (slice?-append head c (packed cs)))

fetch_packed :
    (uncompress : Uncompress) (before c : List ℕ) (cs : List (List ℕ))
    → length c < 2 ^ 32
    → fetch_block uncompress (before ++ packed (c ∷ cs)) (length before) ≡ unpack uncompress c
unfolding fetch_block unpack
fetch_packed uncompress before c cs small =
    rw (chunk_word before c cs small, chunk_bytes before c cs) refl

packed-Fetches :
    (uncompress : Uncompress) (before : List ℕ) (cs bs : List (List ℕ))
    → AreSmall cs
    → Unpacks uncompress cs bs
    → Fetches uncompress (before ++ packed cs) (offsets (length before) cs) bs
unfolding offsets
packed-Fetches uncompress before [] [] small u = tt
packed-Fetches uncompress before [] (b ∷ bs) small u = elim u [ ]
packed-Fetches uncompress before (c ∷ cs) [] small u = elim u [ ]
packed-Fetches uncompress before (c ∷ cs) (b ∷ bs) small u = (
  fetch_packed uncompress before c cs small.0 ∙ u.0,
  subst (λ k. Fetches uncompress (before ++ packed (c ∷ cs)) (offsets k cs) bs)
      (length-past before c)
      (subst (λ fi. Fetches uncompress fi (offsets (length (past before c)) cs) bs)
        (past-packed before c cs) (packed-Fetches uncompress (past before c) cs bs small.1 u.1)),
)

length-packed : (cs : List (List ℕ)) → length cs ≤ length (packed cs)
unfolding packed
length-packed [] = omega arith
length-packed (c ∷ cs) = omega (
  arith,
  length-packed cs,
  length-append (le_bytes 4 (length c)) (c ++ packed cs),
  length-append c (packed cs),
  length-le_bytes 4 (length c),
)

-- What loading a bundle file finds: its size and where its chunks begin.
abbrev pub packed_bundle : ℕ → List (List ℕ) → DieselBundle
packed_bundle size cs = record {
  path = [];
  header_path = [];
  decompressed_file_size = size;
  chunk_offsets = offsets 8 cs;
}

-- A bundle file written as its size and its chunks is loaded with the place of every chunk.
pub load_package_bundle-bundle_file :
    (disk : Disk) (path : List ℕ) (size : ℕ) (cs : List (List ℕ))
    → size < 2 ^ 64
    → AreSmall cs
    → disk path ≡ some (bundle_file size cs)
    → load_package_bundle disk path ≡ ok (packed_bundle size cs)
unfolding load_package_bundle bundle_file
load_package_bundle-bundle_file disk path size cs fits small e =
    rw (e, load_package_bundle, read_le?-append [] (packed cs) 8 size fits, found) refl
  where
    found :
        chunk_offsets_from (suc (length (bundle_file size cs))) (bundle_file size cs) 8
        ≡ ok (offsets 8 cs)
    found =
        subst
          (λ k.
            chunk_offsets_from (suc (length (bundle_file size cs))) (bundle_file size cs) k
            ≡ ok (offsets k cs))
          (length-le_bytes 8 size)
          (offsets-packed (suc (length (bundle_file size cs))) (le_bytes 8 size) cs small
            (omega (arith, length-packed cs, length-append (le_bytes 8 size) (packed cs))))

-- A file that lies in a bundle of at least one chunk is read back from the bundle file: its
-- range of the blocks that the chunks decompress to, where all blocks but the last are full.
pub read_contents-bundle_file :
    (uncompress : Uncompress) (disk : Disk) (path : List ℕ) (size : ℕ) (c : List ℕ)
    (cs bs : List (List ℕ)) (file : DslFile)
    → size < 2 ^ 64
    → AreSmall (c ∷ cs)
    → disk path ≡ some (bundle_file size (c ∷ cs))
    → Unpacks uncompress (c ∷ cs) bs
    → AllFull bs
    → has_length file ≡ true
    → file.offset + file.length ≤ length (flatten bs)
    → (bundle : DieselBundle) × (load_package_bundle disk path ≡ ok bundle)
      × (read_contents uncompress file bundle (bundle_file size (c ∷ cs))
          ≡ ok (take file.length (drop file.offset (flatten bs))))
unfolding bundle_file offsets
read_contents-bundle_file uncompress disk path size c cs bs file fits small e u full known within =
    let before = le_bytes 8 size in
    let fetched =
      subst (λ k. Fetches uncompress (bundle_file size (c ∷ cs)) (offsets k (c ∷ cs)) bs)
        (length-le_bytes 8 size) (packed-Fetches uncompress before (c ∷ cs) bs small u) in
    (
      packed_bundle size (c ∷ cs),
      load_package_bundle-bundle_file disk path size (c ∷ cs) fits small e,
      read_contents_range uncompress file (packed_bundle size (c ∷ cs)) (bundle_file size (c ∷ cs))
          bs known (λ q. cc) fetched full within,
    )
