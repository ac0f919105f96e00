-- ===== src/Runner/Elf/Segments.antt =====
-- runner/src/elf.rs: the bytes that the segments of a file come to.
use mozak_vm.Prelude.{
  ℕ, ◌+◌, ◌-◌, ◌≤◌, ◌≡◌, ◌∙◌, refl, sym, ap, arith, Bool, true, false, Option, none, some, List, [],
  ◌∷◌, ◌++◌, length, take, drop, replicate, min, ltb, leb, if◌then◌else◌, get_elem?, Bool-cases,
  inl, inr, ◌⊎◌, ◌||◌, length-drop,
}
use mozak_vm.Runner.Outcome.{
  Build, ok, panic, ◌>>=◌, Ensures, returns, panics, Ensures-bind, Ensures-if, Ensures-map,
  index_out_of_bounds,
}
use mozak_vm.Runner.HashMap.{get}
use mozak_vm.Runner.Loader.{convert}
use mozak_vm.Runner.Elf.{ProgramHeader, slice, segment_bytes, segments_bytes, extract_elf_data}
use mozak_vm.Runner.Elf.Entries.{
  or_else, latest, latest-append, get-extend-latest, zip_range-latest, placed_lem, get_elem?-drop,
  get_elem?-take, get_elem?-zeros,
}

-- The byte that a segment has at an address: that of the file, or zero past the shorter of its sizes.
abbrev pub byte_at : List ℕ → ProgramHeader → ℕ → Option ℕ
byte_at input header i =
    if ltb i (min header.p_filesz header.p_memsz)
    then get_elem? input (header.p_offset + i)
    else if ltb i header.p_filesz || ltb i header.p_memsz
    then some 0
    else none

abbrev pub segment_byte : List ℕ → ProgramHeader → ℕ → Option ℕ
segment_byte input header a =
    if leb header.p_vaddr a then byte_at input header (a - header.p_vaddr) else none

-- The last of the segments that are chosen and have a byte there.
unfoldable pub image_byte : (ℕ → Bool) → List ℕ → List ProgramHeader → ℕ → Option ℕ
image_byte check input [] a = none
image_byte check input (header ∷ headers) a =
    or_else (image_byte check input headers a)
      (if check header.p_flags then segment_byte input header a else none)

convert-same : (x : ℕ) → Ensures (λ v. v ≡ x) (convert x)
unfolding convert
convert-same x = Ensures-if _ (returns refl) panics

slice_lem :
    (input : List ℕ) (offset size : ℕ)
    → Ensures
        (λ bs. (bs ≡ take size (drop offset input)) × (size ≤ length (drop offset input)))
        (slice input offset size)
unfolding slice
slice_lem input offset size =
    Ensures-if _ panics (go (Bool-cases (ltb (length input - offset) size)))
  where
    go :
        (ltb (length input - offset) size ≡ true) ⊎ (ltb (length input - offset) size ≡ false)
        → Ensures
            (λ bs. (bs ≡ take size (drop offset input)) × (size ≤ length (drop offset input)))
            (if ltb (length input - offset) size
              then panic index_out_of_bounds
              else ok (take size (drop offset input)))
    go (inl short) = rw short panics
    go (inr long) = rw long (returns (refl, rw (length-drop offset input) (ground arith)))

file_byte :
    (input : List ℕ) (header : ProgramHeader) (i : ℕ) (extra : ℕ)
    → extra
      ≡ (if leb header.p_filesz header.p_memsz then header.p_memsz else header.p_filesz)
        - min header.p_filesz header.p_memsz
    → min header.p_filesz header.p_memsz ≤ length (drop header.p_offset input)
    → get_elem?
        (take (min header.p_filesz header.p_memsz) (drop header.p_offset input)
          ++ replicate extra 0)
        i
      ≡ byte_at input header i
file_byte input header i extra e le =
    get_elem?-take (min header.p_filesz header.p_memsz) (drop header.p_offset input)
      (replicate extra 0) i le
    ∙ rw (get_elem?-drop header.p_offset input i)
        (rw (get_elem?-zeros extra (i - min header.p_filesz header.p_memsz)) (ground arith))

module _ (build : Build) (checked : build.overflow_checks ≡ true) (input : List ℕ) where
  segment_bytes-latest :
      (header : ProgramHeader)
      → Ensures
          (λ es. (a : ℕ) → latest es a ≡ segment_byte input header a)
          (segment_bytes build input header)
  unfolding segment_bytes
  segment_bytes-latest header = Ensures-bind (convert-same header.p_vaddr) λ v ev.
      Ensures-bind (slice_lem input header.p_offset (min header.p_filesz header.p_memsz))
        λ bytes (eb, le).
          Ensures-map
            (λ es h a.
              h a
              ∙ placed_lem v _ a
              ∙ rw (ev, eb)
                  (ap (λ o. if leb header.p_vaddr a then o else none)
                    (file_byte input header (a - header.p_vaddr) _ refl le)))
            (zip_range-latest build v _ checked)

  segments_bytes-latest :
      (check : ℕ → Bool) (headers : List ProgramHeader)
      → Ensures
          (λ es. (a : ℕ) → latest es a ≡ image_byte check input headers a)
          (segments_bytes build check input headers)
  unfolding segments_bytes image_byte latest
  segments_bytes-latest check [] = returns λ a. refl
  segments_bytes-latest check (header ∷ headers) =
      go (check header.p_flags) (segments_bytes-latest check headers)
    where
      go :
          (b : Bool)
          → Ensures
              (λ es. (a : ℕ) → latest es a ≡ image_byte check input headers a)
              (segments_bytes build check input headers)
          → Ensures
              (λ es.
                (a : ℕ)
                → latest es a
                  ≡ or_else
                      (image_byte check input headers a)
                      (if b then segment_byte input header a else none))
              (if b
                then (segment_bytes build input header >>= λ bytes.
                    segments_bytes build check input headers >>= λ more. ok (bytes ++ more))
                else segments_bytes build check input headers)
      go true rest = Ensures-bind (segment_bytes-latest header) λ bytes h.
          Ensures-bind rest λ more h'. returns λ a. latest-append bytes more a ∙ rw (h a, h' a) refl
      go false rest =
          Ensures-map (λ es h a. h a ∙ sym (nothing (image_byte check input headers a))) rest
        where
          nothing : (o : Option ℕ) → or_else o none ≡ o
          nothing none = refl
          nothing (some w) = refl

  -- PLACE
  pub get-extract_elf_data :
      (check : ℕ → Bool) (headers : List ProgramHeader)
      → Ensures
          (λ memory. (a : ℕ) → get memory a ≡ image_byte check input headers a)
          (extract_elf_data build check input headers)
  unfolding extract_elf_data get
  get-extract_elf_data check headers = Ensures-bind (segments_bytes-latest check headers) λ es h.
      returns λ a. get-extend-latest [] es a ∙ rw (h a) (nothing (image_byte check input headers a))
    where
      nothing : (o : Option ℕ) → or_else o none ≡ o
      nothing none = refl
      nothing (some w) = refl
