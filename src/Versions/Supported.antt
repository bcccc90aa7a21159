-- ===== src/Versions/Supported.antt =====
-- The supported versions resolve to themselves.
use activemq_artemis_operato.Versions.{
  Version, Components, Semver, supported_versions, supported_semantic_versions,
  resolve_version_components, resolve_broker_version, resolve_broker_version_from_cr, version_text,
}
use activemq_artemis_operato.Versions.Ascending.{IsAscending, IsLatest}
use activemq_artemis_operato.Versions.Pins.{pin_patch, IsPin, pin_text, has_pin, pin_text-blank}
use activemq_artemis_operato.Versions.Latest.{resolve_broker_version-IsLatest}
use activemq_artemis_operato.Base.{
  ℕ, String, Bool, true, false, not, ◌&&◌, Option, none, some, List, map, Memᴰ, Memᴰ-image, any,
  any-false, decimal, false≢true, ◌≡◌, refl, sym, ap, ◌∙◌, ◌↔◌, ◌==◌, eq_iff, ltb, arith, two_to_64,
}
use activemq_artemis_operato.Errors.{ok}

abbrev pub version : ℕ → ℕ → ℕ → Version
version a b c = record { major = a; minor = b; patch = c }

-- What the library promises of versions x.y.z whose parts are 64-bit numbers, and of its sort.
pub record IsSemver (semver : Semver) : Type 0 where
  pub parse_tolerant_lem :
      (a b c : ℕ)
      → IsPin (pin_patch a b c)
      → semver.parse_tolerant (pin_text (pin_patch a b c)) ≡ ok (version a b c)
  pub must_parse_lem :
      (a b c : ℕ)
      → IsPin (pin_patch a b c)
      → semver.must_parse (pin_text (pin_patch a b c)) ≡ version a b c
  pub text_lem : (a b c : ℕ) → semver.text (version a b c) ≡ pin_text (pin_patch a b c)
  pub sort_keeps : (v : Version) (vs : List Version) → Memᴰ v vs ↔ Memᴰ v (semver.sort vs)
  pub sort-IsAscending : (vs : List Version) → IsAscending (semver.sort vs)

abbrev pub or_zero : Option ℕ → ℕ
or_zero none = 0
or_zero (some n) = n

-- A text of three 64-bit numbers with points between them.
record IsTriple (s : String) (a b c : ℕ) : Type 0 where
  pin : IsPin (pin_patch a b c)
  same : pin_text (pin_patch a b c) ≡ s

is_triple : String → ℕ → ℕ → ℕ → Bool
is_triple s a b c =
    pin_text (pin_patch a b c) == s && (ltb a two_to_64 && (ltb b two_to_64 && ltb c two_to_64))

is_triple-IsTriple : (s : String) (a b c : ℕ) → not (is_triple s a b c) ≡ false → IsTriple s a b c
unfolding is_triple
is_triple-IsTriple s a b c h = record {
  pin = (ground arith, (ground arith, ground arith));
  same = (eq_iff (pin_text (pin_patch a b c)) s).0 (ground (arith, h));
}

is_own_triple : Components → String → Bool
is_own_triple c s = is_triple s (or_zero c.major) (or_zero c.minor) (or_zero c.patch)

all_triples :
    any (λ s. not (is_own_triple (resolve_version_components s) s)) supported_versions ≡ false
unfolding is_own_triple is_triple supported_versions resolve_version_components decimal
all_triples = refl

supported-IsTriple :
    (s : String) → Memᴰ s supported_versions → (a : ℕ) × ((b : ℕ) × ((c : ℕ) × IsTriple s a b c))
unfolding is_own_triple
supported-IsTriple s i =
    let c = resolve_version_components s in
    let h = any-false (λ t. not (is_own_triple (resolve_version_components t) t)) all_triples i in
    (
      or_zero c.major,
      (
        or_zero c.minor,
        (
          or_zero c.patch,
          is_triple-IsTriple s (or_zero c.major) (or_zero c.minor) (or_zero c.patch) h,
        ),
      ),
    )

has_pin_self : (a b c : ℕ) → has_pin (pin_patch a b c) (version a b c) ≡ true
has_pin_self a b c = ground arith

has_pin-version : (a b c : ℕ) (v : Version) → has_pin (pin_patch a b c) v ≡ true → v ≡ version a b c
has_pin-version a b c v h = ground arith

module _ (semver : Semver) (laws : IsSemver semver) where
  pinned_resolves :
      (a b c : ℕ) (o : Option Version) (vs : List Version)
      → Memᴰ (version a b c) vs
      → IsLatest (has_pin (pin_patch a b c)) vs o
      → o ≡ some (version a b c)
  pinned_resolves a b c none vs i l =
      absurd (false≢true (sym (l (version a b c) i) ∙ has_pin_self a b c))
  pinned_resolves a b c (some v) vs i l = ap some (has_pin-version a b c v l.1.0)

  triple_listed :
      (s : String) (a b c : ℕ)
      → Memᴰ s supported_versions
      → IsTriple s a b c
      → Memᴰ (version a b c) (supported_semantic_versions semver)
  unfolding supported_semantic_versions
  triple_listed s a b c i t =
      let parsed : semver.must_parse s ≡ version a b c =
        ap semver.must_parse (sym t.same) ∙ laws.must_parse_lem a b c t.pin in
      (laws.sort_keeps (version a b c) (map semver.must_parse supported_versions)).0
        (rw parsed at (Memᴰ-image semver.must_parse i))

  supported-IsAscending : IsAscending (supported_semantic_versions semver)
  unfolding supported_semantic_versions
  supported-IsAscending = laws.sort-IsAscending (map semver.must_parse supported_versions)

  triple_resolves :
      (s : String) (a b c : ℕ)
      → Memᴰ s supported_versions
      → IsTriple s a b c
      → resolve_broker_version_from_cr semver s ≡ ok s
  unfolding resolve_broker_version_from_cr
  triple_resolves s a b c i t =
      let vs = supported_semantic_versions semver in
      let p = pin_patch a b c in
      let filled : (s == "") ≡ false =
        ap (λ (r : String). r == "") (sym t.same) ∙ pin_text-blank p t.pin in
      let parsed : semver.parse_tolerant s ≡ ok (version a b c) =
        ap semver.parse_tolerant (sym t.same) ∙ laws.parse_tolerant_lem a b c t.pin in
      let resolved : resolve_broker_version vs s ≡ some (version a b c) =
        ap (resolve_broker_version vs) (sym t.same)
        ∙ pinned_resolves a b c (resolve_broker_version vs (pin_text p)) vs
            (triple_listed s a b c i t)
            (resolve_broker_version-IsLatest vs p supported-IsAscending t.pin) in
      rw filled
        (rw parsed (ap (version_text semver s) resolved ∙ ap ok (laws.text_lem a b c ∙ t.same)))

  -- With a semver library that reads and prints versions x.y.z and sorts, each supported version resolves
  -- to itself.
  pub resolve_broker_version_from_cr-supported :
      (s : String) → Memᴰ s supported_versions → resolve_broker_version_from_cr semver s ≡ ok s
  resolve_broker_version_from_cr-supported s i =
      let (a, (b, (c, t))) = supported-IsTriple s i in triple_resolves s a b c i t
