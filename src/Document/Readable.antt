-- ===== src/Document/Readable.antt =====
-- What `BuildConfigDomain` of internal/infra/model/config.go returns: a configuration that a document
-- can hold, and the same at every time but for the time of creation.
use stowmark.Base.{
  ℕ, Bytes, ◌≡◌, refl, sym, ap, ◌∙◌, subst, Option, none, some, Result, ok, err, panics,
}
use stowmark.Base.Exec.{wrap_result, wrap_result-ok}
use stowmark.Encryption.{EncryptionConfig}
use stowmark.Repository.Compression.{parse_compression_type, new_compression}
use stowmark.Repository.Compression.Laws.{FitsType, new_compression-FitsType, parse-ne-other}
use stowmark.Repository.Config.{Config, new_config}
use stowmark.Repository.Config.Stored.{IsReadable, timeless}
use stowmark.Document.{
  ConfigDocument, then_result, build_config_domain, parsed_id, option_map, encryption_of_document,
}
use stowmark.Document.Laws.{AllDefaults}

then_result-ok :
    {A B : Type 0} (r : Result A) (f : A → Result B) {b : B}
    → then_result r f ≡ ok b
    → (a : A) × (r ≡ ok a) × (f a ≡ ok b)
then_result-ok (ok a) f h = (a, refl, h)
then_result-ok (err e) f h = cc
then_result-ok (panics p) f h = cc

read_defaults : (o : Option EncryptionConfig) → AllDefaults (option_map encryption_of_document o)
read_defaults none = tt
read_defaults (some e) = record { type_default = refl; key_default = refl }

the_config : Config → Result Config → Config
the_config d (ok c) = c
the_config d _ = d

pub build_config_domain-IsReadable :
    (parse_uuid : Bytes → Option Bytes) (now : ℕ) (d : ConfigDocument) (c : Config)
    → build_config_domain parse_uuid now d ≡ ok c
    → (build_config_domain parse_uuid 0 d ≡ ok (timeless c)) × IsReadable c
unfolding build_config_domain the_config
build_config_domain-IsReadable parse_uuid now d c h =
    let (id, e1, h1) = then_result-ok (parsed_id (parse_uuid d.id)) _ h in
    let (t, e2, h2) =
      then_result-ok
        (wrap_result "failed to parse compression type"
          (parse_compression_type d.compression.type_name))
        _ h1 in
    let (comp, e3, h3) =
      then_result-ok
        (wrap_result "failed to create compression" (new_compression t d.compression.level)) _ h2 in
    let fits =
      new_compression-FitsType t d.compression.level comp
        (wrap_result-ok "failed to create compression" _ e3) in
    let enc = option_map encryption_of_document d.encryption in
    let known =
      parse-ne-other d.compression.type_name t
        (wrap_result-ok "failed to parse compression type" _ e2) in
    let same_config : new_config now id d.format_version (some comp) enc ≡ c =
      ap (the_config c) h3 in
    (
      rw (e1, e2, e3) (ap (λ x. ok (timeless x)) same_config),
      subst IsReadable same_config (record {
        comp = comp;
        has_compression = refl;
        storable = record {
          known = λ s e. known s (sym fits.0 ∙ e);
          valid = subst (λ x. FitsType x comp.level) (sym fits.0) fits.1;
        };
        defaults = read_defaults d.encryption;
      }),
    )
