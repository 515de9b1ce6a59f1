-- ===== src/Diesel/Contents/Range.antt =====
-- ReadContents of src/dbutil/DB.cpp returns the file's range of the decompressed bundle.
use raid_super_blt.Base.{
  ℕ, zero, suc, ◌+◌, ◌-◌, ◌*◌, ◌/◌, ◌%◌, ◌≤◌, ◌<◌, ◌≡◌, ◌≢◌, refl, sym, ap, ◌∙◌, true, false, none,
  some, List, [], ◌∷◌, get_elem?, length, take, drop, replicate, length-append, length-drop,
  drop-append_ge, flatten, arith, ◌&&◌,
}
use raid_super_blt.Outcome.{ok, value_or, undefined, ◌>>=◌}
use raid_super_blt.Datastore.{Disk}
use raid_super_blt.Idstring.Hex.{parse_hash}
use raid_super_blt.Diesel.{DieselDb, DieselBundle, DslFile, FilePtr, has_length, found, find, deref}
use raid_super_blt.Diesel.Contents.{
  Uncompress, block_size, read_blocks, real_length_of, read_contents, load_from, catch_io,
  load_found, load_asset_contents, Answer, bytes, null, fiber_error,
}
use raid_super_blt.Diesel.Contents.Chunks.{Fetches, AllFull, filled, read_blocks_first}

Fetches-drop :
    (uncompress : Uncompress) (fi : List ℕ) (n : ℕ) (cs : List ℕ) (bs : List (List ℕ))
    → Fetches uncompress fi cs bs
    → Fetches uncompress fi (drop n cs) (drop n bs)
Fetches-drop uncompress fi zero cs bs f = f
Fetches-drop uncompress fi (suc n) [] [] f = tt
Fetches-drop uncompress fi (suc n) [] (b ∷ bs) f = elim f [ ]
Fetches-drop uncompress fi (suc n) (c ∷ cs) [] f = elim f [ ]
Fetches-drop uncompress fi (suc n) (c ∷ cs) (b ∷ bs) f = Fetches-drop uncompress fi n cs bs f.1

AllFull-drop : (n : ℕ) (bs : List (List ℕ)) → AllFull bs → AllFull (drop n bs)
AllFull-drop zero bs f = f
AllFull-drop (suc n) [] f = tt
AllFull-drop (suc zero) (b ∷ []) f = tt
AllFull-drop (suc (suc n)) (b ∷ []) f = tt
AllFull-drop (suc n) (b ∷ c ∷ bs) f = AllFull-drop n (c ∷ bs) f.1

-- An offset into the whole is a block and an offset into the blocks from there on.
drop-blocks :
    (q r : ℕ) (bs : List (List ℕ))
    → AllFull bs
    → q * block_size + r < length (flatten bs)
    → drop (q * block_size + r) (flatten bs) ≡ drop r (flatten (drop q bs))
drop-blocks zero r bs full h = ap (λ k. drop k (flatten bs)) (omega arith)
drop-blocks (suc q) r [] full h = absurd (omega arith)
drop-blocks (suc q) r (b ∷ []) full h = absurd (omega (arith, length-append {0} b (flatten [])))
drop-blocks (suc q) r (b ∷ c ∷ bs) full h =
    drop-append_ge (suc q * block_size + r) b (flatten (c ∷ bs)) (omega (arith, full.0))
    ∙ (ap (λ k. drop k (flatten (c ∷ bs))) {x = suc q * block_size + r - length b}
          {y = q * block_size + r} (omega (arith, full.0))
        ∙ drop-blocks q r (c ∷ bs) full.1
            (omega (arith, full.0, length-append b (flatten (c ∷ bs)))))

read_blocks_none :
    (uncompress : Uncompress) (fi : List ℕ) (r : ℕ) (cs : List ℕ)
    → read_blocks uncompress fi 0 r cs 0 [] ≡ ok []
unfolding read_blocks
read_blocks_none uncompress fi r [] = refl
read_blocks_none uncompress fi r (c ∷ cs) = refl

-- The loop of ReadContents, at any range within the blocks.
read_blocks_range :
    (uncompress : Uncompress) (fi : List ℕ) (offset real : ℕ) (cs : List ℕ) (bs : List (List ℕ))
    → AllFull bs
    → Fetches uncompress fi cs bs
    → offset + real ≤ length (flatten bs)
    → read_blocks uncompress fi real
        (offset % block_size)
        (drop (offset / block_size) cs)
        0
        (replicate real 0)
      ≡ ok (take real (drop offset (flatten bs)))
read_blocks_range uncompress fi offset zero cs bs full f fits =
    read_blocks_none uncompress fi (offset % block_size) (drop (offset / block_size) cs)
read_blocks_range uncompress fi offset (suc k) cs bs full f fits =
    let q = offset / block_size in
    let r = offset % block_size in
    let whole : q * block_size + r ≡ offset = omega arith in
    let same = sym (ap (λ n. drop n (flatten bs)) whole) ∙ drop-blocks q r bs full (omega arith) in
    ap (read_blocks uncompress fi (suc k) r (drop q cs) 0) {x = replicate (suc k) 0}
      {y = filled (suc k) []} (ap (λ n. replicate n 0) {x = suc k} {y = suc k - 0} (omega arith))
    ∙ (read_blocks_first uncompress fi (suc k) r (drop q cs) (drop q bs) (omega arith) (omega arith)
          (AllFull-drop q bs full)
          (omega (
            arith,
            ap length same,
            length-drop offset (flatten bs),
            length-drop r (flatten (drop q bs)),
          ))
          (Fetches-drop uncompress fi q cs bs f)
        ∙ ap (λ t. ok (take (suc k) t)) (sym same))

-- The branch of a bundle with chunks.
read_contents_chunked :
    (uncompress : Uncompress) (file : DslFile) (bundle : DieselBundle) (fi cs : List ℕ)
    → has_length file ≡ true
    → cs ≢ []
    → bundle.chunk_offsets ≡ cs
    → read_contents uncompress file bundle fi
      ≡ read_blocks uncompress fi file.length
          (file.offset % block_size)
          (drop (file.offset / block_size) cs)
          0
          (replicate file.length 0)
unfolding read_contents real_length_of
read_contents_chunked uncompress file bundle fi [] known chunked e = absurd (chunked refl)
read_contents_chunked uncompress file bundle fi (c ∷ cs) known chunked e =
    rw (e, read_contents) (rw known refl)

-- A file whose range lies within its decompressed bundle is read as that range, over as many
-- blocks as it spans.
pub read_contents_range :
    (uncompress : Uncompress) (file : DslFile) (bundle : DieselBundle) (fi : List ℕ)
    (blocks : List (List ℕ))
    → has_length file ≡ true
    → bundle.chunk_offsets ≢ []
    → Fetches uncompress fi bundle.chunk_offsets blocks
    → AllFull blocks
    → file.offset + file.length ≤ length (flatten blocks)
    → read_contents uncompress file bundle fi
      ≡ ok (take file.length (drop file.offset (flatten blocks)))
read_contents_range uncompress file bundle fi blocks known chunked f full fits =
    read_contents_chunked uncompress file bundle fi bundle.chunk_offsets known chunked refl
    ∙ read_blocks_range uncompress fi file.offset file.length bundle.chunk_offsets blocks full f
        fits

-- What stands behind a name in the database, where it can be read.
pub record IsStored (disk : Disk) (db : DieselDb) (uncompress : Uncompress) (file : DslFile)
    (blocks : List (List ℕ)) : Type 0 where
  pub bundle_id : ℕ
  pub in_bundle : file.bundle ≡ some bundle_id
  pub bundle : DieselBundle
  pub allocated : get_elem? db.bundles bundle_id ≡ some bundle
  pub fi : List ℕ
  pub on_disk : disk bundle.path ≡ some fi
  pub chunked : bundle.chunk_offsets ≢ []
  pub fetched : Fetches uncompress fi bundle.chunk_offsets blocks
  pub full : AllFull blocks
  pub fits : file.offset + file.length ≤ length (flatten blocks)

parsed :
    (uncompress : Uncompress) (disk : Disk) (db : DieselDb) (name_text ext_text : List ℕ)
    (name ext : ℕ)
    → parse_hash name_text ≡ ok name
    → parse_hash ext_text ≡ ok ext
    → load_asset_contents uncompress disk db name_text ext_text
      ≡ load_found uncompress disk db (find db name ext)
unfolding load_asset_contents
parsed uncompress disk db name_text ext_text name ext p q = rw (p, q) refl

module _ (uncompress : Uncompress) (disk : Disk) (db : DieselDb) (file : DslFile)
    (blocks : List (List ℕ)) (known : has_length file ≡ true)
    (s : IsStored disk db uncompress file blocks) where
  found_here : found file ≡ true
  found_here = ap (λ b. elim b [ none ↦ false | some i ↦ true ]) s.in_bundle

  load_from_stored :
      load_from uncompress disk db file
      ≡ ok (bytes (take file.length (drop file.offset (flatten blocks))))
  unfolding load_from catch_io
  load_from_stored =
      rw (known, found_here)
        (ap
            (λ b. value_or b undefined >>= λ i.
              value_or (get_elem? db.bundles i) undefined >>= λ bundle. elim (disk bundle.path) [
                | none ↦ ok fiber_error
                | some fi ↦ catch_io (read_contents uncompress file bundle fi)
              ])
            s.in_bundle
          ∙ rw
              (
                s.allocated,
                s.on_disk,
                read_contents_range uncompress file s.bundle s.fi blocks known s.chunked s.fetched
                    s.full s.fits,
              )
              refl)

-- `Expected disk db uncompress name ext answer`: what the script gets for an asset.
pub data Expected (disk : Disk) (db : DieselDb) (uncompress : Uncompress) (name ext : ℕ)
    : Answer → Type 0 where
  unknown : find db name ext ≡ none → Expected disk db uncompress name ext null
  no_header :
      (ptr : FilePtr) (file : DslFile)
      → find db name ext ≡ some ptr
      → deref db ptr ≡ ok file
      → (has_length file && found file) ≡ false
      → Expected disk db uncompress name ext fiber_error
  no_bundle :
      (ptr : FilePtr) (file : DslFile) (bundle_id : ℕ) (bundle : DieselBundle)
      → find db name ext ≡ some ptr
      → deref db ptr ≡ ok file
      → file.bundle ≡ some bundle_id
      → get_elem? db.bundles bundle_id ≡ some bundle
      → disk bundle.path ≡ none
      → Expected disk db uncompress name ext fiber_error
  contents :
      (ptr : FilePtr) (file : DslFile) (blocks : List (List ℕ))
      → find db name ext ≡ some ptr
      → deref db ptr ≡ ok file
      → has_length file ≡ true
      → IsStored disk db uncompress file blocks
      → Expected disk db uncompress name ext
          (bytes (take file.length (drop file.offset (flatten blocks))))

load_from_no_header :
    (uncompress : Uncompress) (disk : Disk) (db : DieselDb) (file : DslFile)
    → (has_length file && found file) ≡ false
    → load_from uncompress disk db file ≡ ok fiber_error
unfolding load_from
load_from_no_header uncompress disk db file h = ground arith

load_from_no_bundle :
    (uncompress : Uncompress) (disk : Disk) (db : DieselDb) (file : DslFile) (bundle_id : ℕ)
    (bundle : DieselBundle)
    → file.bundle ≡ some bundle_id
    → get_elem? db.bundles bundle_id ≡ some bundle
    → disk bundle.path ≡ none
    → load_from uncompress disk db file ≡ ok fiber_error
unfolding load_from
load_from_no_bundle uncompress disk db file bundle_id bundle p q r = ground arith

load_found-Expected :
    (uncompress : Uncompress) (disk : Disk) (db : DieselDb) (name ext : ℕ) (answer : Answer)
    → Expected disk db uncompress name ext answer
    → load_found uncompress disk db (find db name ext) ≡ ok answer
unfolding load_found
load_found-Expected uncompress disk db name ext answer (unknown missing) =
    ap (load_found uncompress disk db) missing
load_found-Expected uncompress disk db name ext answer (no_header ptr file at pointed bad) =
    ap (load_found uncompress disk db) at
    ∙ rw pointed (load_from_no_header uncompress disk db file bad)
load_found-Expected uncompress disk db name ext answer
      (no_bundle ptr file bundle_id bundle at pointed p q r) =
    ap (load_found uncompress disk db) at
    ∙ rw pointed (load_from_no_bundle uncompress disk db file bundle_id bundle p q r)
load_found-Expected uncompress disk db name ext answer
      (contents ptr file blocks at pointed known s) =
    ap (load_found uncompress disk db) at
    ∙ rw pointed (load_from_stored uncompress disk db file blocks known s)

-- `load_asset_contents`, given texts that name an asset, answers null if the database does not
-- know it, aborts the fiber if its headers were not read or its bundle cannot be opened, and
-- answers the bytes of a file that is stored in full blocks.
pub load_asset_contents_answers :
    (uncompress : Uncompress) (disk : Disk) (db : DieselDb) (name_text ext_text : List ℕ)
    (name ext : ℕ) (answer : Answer)
    → parse_hash name_text ≡ ok name
    → parse_hash ext_text ≡ ok ext
    → Expected disk db uncompress name ext answer
    → load_asset_contents uncompress disk db name_text ext_text ≡ ok answer
load_asset_contents_answers uncompress disk db name_text ext_text name ext answer p q x =
    parsed uncompress disk db name_text ext_text name ext p q
    ∙ load_found-Expected uncompress disk db name ext answer x
