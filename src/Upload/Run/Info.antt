-- ===== src/Upload/Run/Info.antt =====
-- The parts that `getPartInfo` of internal/third/file/upload.go returns are those of the file.
use openim_sdk_core.Prelude.{
  ℕ, suc, ◌≡◌, refl, sym, ap, subst, ◌∙◌, List, [], ◌∷◌, Option, String, length,
}
use openim_sdk_core.Prelude.Outcome.{Result, ok, err}
use openim_sdk_core.Upload.{PartLimitResp, part_size, part_sizes, get_part_num}
use openim_sdk_core.Upload.Cut.{sum, part_size-Cuts}
use openim_sdk_core.Upload.Transfer.Whole.{sizes}
use openim_sdk_core.Upload.Run.{
  Outside, PartInfo, and_md5, md5_parts, md5s, info_of_parts, by_part_size, get_part_info,
}

pub ok_injective {ℓ} : {A : Type ℓ} (a b : A) → ok a ≡ ok b → a ≡ b
ok_injective a b h = cc

and_md5-sizes :
    (size : ℕ) (r : Result String) (rest : Result (List (ℕ × String))) (ss : List ℕ)
    (parts : List (ℕ × String))
    → ((ps : List (ℕ × String)) → rest ≡ ok ps → sizes ps ≡ ss)
    → and_md5 size r rest ≡ ok parts
    → sizes parts ≡ size ∷ ss
and_md5-sizes size (err e) rest ss parts next h = absurd (cc)
and_md5-sizes size (ok md5) (err e) ss parts next h = absurd (cc)
and_md5-sizes size (ok md5) (ok ps) ss parts next h =
    sym (ap sizes (ok_injective ((size, md5) ∷ ps) parts h)) ∙ ap (λ xs. size ∷ xs) (next ps refl)

md5_parts-sizes :
    (read : ℕ → Result String) (i : ℕ) (ss : List ℕ) (parts : List (ℕ × String))
    → md5_parts read i ss ≡ ok parts
    → sizes parts ≡ ss
unfolding md5_parts
md5_parts-sizes read i [] parts h = sym (ap sizes (ok_injective [] parts h))
md5_parts-sizes read i (size ∷ ss) parts h =
    and_md5-sizes size (read i) (md5_parts read (suc i) ss) ss parts
      (λ ps e. md5_parts-sizes read (suc i) ss ps e) h

-- The sizes of the parts are those that `partSize` gives.
abbrev IsCut : Option PartLimitResp → Outside → ℕ → PartInfo → Type 0
IsCut part_limit o file_size info =
    ((part_size part_limit o.limit file_size).0 ≡ ok info.part_size)
    × (sizes info.parts ≡ part_sizes file_size info.part_size)

parts-IsCut :
    (part_limit : Option PartLimitResp) (o : Outside) (file_size d n : ℕ)
    (r : Result (List (ℕ × String))) (info : PartInfo)
    → (part_size part_limit o.limit file_size).0 ≡ ok d
    → md5_parts o.read 0 (part_sizes file_size d) ≡ r
    → info_of_parts o d n r ≡ ok info
    → IsCut part_limit o file_size info
parts-IsCut part_limit o file_size d n (err e) info size read h = absurd (cc)
parts-IsCut part_limit o file_size d n (ok parts) info size read h =
    subst (IsCut part_limit o file_size)
      (ok_injective
        (record { part_size = d; part_num = n; part_md5 = o.part_md5 (md5s parts); parts = parts })
        info h)
      (size, md5_parts-sizes o.read 0 (part_sizes file_size d) parts read)

sized-IsCut :
    (part_limit : Option PartLimitResp) (o : Outside) (file_size : ℕ)
    (r : Result ℕ × Option PartLimitResp) (info : PartInfo)
    → part_size part_limit o.limit file_size ≡ r
    → (by_part_size o file_size r).0 ≡ ok info
    → IsCut part_limit o file_size info
sized-IsCut part_limit o file_size (err e, kept) info size h = absurd (cc)
sized-IsCut part_limit o file_size (ok d, kept) info size h =
    parts-IsCut part_limit o file_size d (get_part_num file_size d)
      (md5_parts o.read 0 (part_sizes file_size d)) info (ap (λ r. r.0) size) refl h

length-sizes : (parts : List (ℕ × String)) → length (sizes parts) ≡ length parts
length-sizes [] = refl
length-sizes ((size, md5) ∷ parts) = ap suc (length-sizes parts)

-- The parts make the file, and are as many as `getPartNum` says.
pub get_part_info-sizes :
    (o : Outside) (part_limit : Option PartLimitResp) (file_size : ℕ) (info : PartInfo)
    → (get_part_info o part_limit file_size).0 ≡ ok info
    → (sum (sizes info.parts) ≡ file_size)
      × (length info.parts ≡ get_part_num file_size info.part_size)
unfolding get_part_info
get_part_info-sizes o part_limit file_size info h =
    let (size, cut) =
      sized-IsCut part_limit o file_size (part_size part_limit o.limit file_size) info refl h in
    let (limit, known, total, parts, count, few, small) =
      part_size-Cuts part_limit o.limit file_size info.part_size size in
    (ap sum cut ∙ total, sym (length-sizes info.parts) ∙ ap length cut ∙ count)
