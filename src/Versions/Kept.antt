-- ===== src/Versions/Kept.antt =====
-- What the upgrades that a broker's status reports say of the version that its spec resolves to.
use activemq_artemis_operato.Versions.{Version, resolve_broker_version}
use activemq_artemis_operato.Versions.Ascending.{at_most, IsAscending, IsLatest}
use activemq_artemis_operato.Versions.Pins.{
  Pin, pin_none, pin_major, pin_minor, pin_patch, IsPin, pin_text, has_pin, pins, pin_text-blank,
}
use activemq_artemis_operato.Versions.Latest.{resolve_broker_version-IsLatest}
use activemq_artemis_operato.Versions.Images.{is_locked_down}
use activemq_artemis_operato.Versions.Status.{
  UpgradeStatus, upgrades, upgrades_of_parts, upgrade_status,
}
use activemq_artemis_operato.Base.{
  String, true, false, List, [], ◌∷◌, some, ◌≡◌, refl, ap, arith, false≢true, Memᴰ, split,
  split-join, decimal, lacks-decimal,
}

-- A component that is not updated is the same in both versions.
pub record IsKept (u : UpgradeStatus) (v w : Version) : Type 0 where
  pub major : u.major_updates ≡ false → v.major ≡ w.major
  pub minor : u.minor_updates ≡ false → v.minor ≡ w.minor
  pub patch : u.patch_updates ≡ false → v.patch ≡ w.patch

-- A component that is updated is the latest that the list has for the components before it.
pub record IsUpdated (u : UpgradeStatus) (vs : List Version) (v : Version) : Type 0 where
  pub major : u.major_updates ≡ true → (w : Version) → Memᴰ w vs → at_most w v ≡ true
  pub minor :
      u.minor_updates ≡ true → (w : Version) → Memᴰ w vs → w.major ≡ v.major → at_most w v ≡ true
  pub patch :
      u.patch_updates ≡ true
      → (w : Version) → Memᴰ w vs
      → w.major ≡ v.major
      → w.minor ≡ v.minor
      → at_most w v ≡ true

abbrev of_pin : Pin → UpgradeStatus
of_pin pin_none = upgrades true true true true
of_pin (pin_major a) = upgrades true false true true
of_pin (pin_minor a b) = upgrades true false false true
of_pin (pin_patch a b c) = upgrades true false false false

parts_of_pin : (p : Pin) → pins p ≡ true → upgrades_of_parts (split (pin_text p) b'.') ≡ of_pin p
parts_of_pin pin_none h = absurd (false≢true h)
parts_of_pin (pin_major a) h =
    ap upgrades_of_parts (split-join "." (decimal a) [] (lacks-decimal a, tt))
parts_of_pin (pin_minor a b) h =
    ap upgrades_of_parts
      (split-join "." (decimal a) (decimal b ∷ []) (lacks-decimal a, (lacks-decimal b, tt)))
parts_of_pin (pin_patch a b c) h = ap upgrades_of_parts (
    split-join "." (decimal a) (decimal b ∷ decimal c ∷ [])
      (lacks-decimal a, (lacks-decimal b, (lacks-decimal c, tt))))

upgrade_status-pin_text :
    (image : String) (p : Pin)
    → is_locked_down image ≡ false
    → IsPin p
    → upgrade_status image (pin_text p) ≡ of_pin p
unfolding upgrade_status
upgrade_status-pin_text image pin_none l h = rw l refl
upgrade_status-pin_text image (pin_major a) l h =
    rw l (rw (pin_text-blank (pin_major a) h) (parts_of_pin (pin_major a) refl))
upgrade_status-pin_text image (pin_minor a b) l h =
    rw l (rw (pin_text-blank (pin_minor a b) h) (parts_of_pin (pin_minor a b) refl))
upgrade_status-pin_text image (pin_patch a b c) l h =
    rw l (rw (pin_text-blank (pin_patch a b c) h) (parts_of_pin (pin_patch a b c) refl))

of_pin-IsKept :
    (p : Pin) (v w : Version) → has_pin p v ≡ true → has_pin p w ≡ true → IsKept (of_pin p) v w
of_pin-IsKept pin_none v w h k = ground arith
of_pin-IsKept (pin_major a) v w h k = ground arith
of_pin-IsKept (pin_minor a b) v w h k = ground arith
of_pin-IsKept (pin_patch a b c) v w h k = ground arith

has_pin-any : (p : Pin) (w : Version) → (of_pin p).major_updates ≡ true → has_pin p w ≡ true
has_pin-any pin_none w e = ground arith
has_pin-any (pin_major a) w e = ground arith
has_pin-any (pin_minor a b) w e = ground arith
has_pin-any (pin_patch a b c) w e = ground arith

has_pin-major :
    (p : Pin) (v w : Version)
    → has_pin p v ≡ true
    → (of_pin p).minor_updates ≡ true
    → w.major ≡ v.major
    → has_pin p w ≡ true
has_pin-major pin_none v w h e q = ground arith
has_pin-major (pin_major a) v w h e q = ground arith
has_pin-major (pin_minor a b) v w h e q = ground arith
has_pin-major (pin_patch a b c) v w h e q = ground arith

has_pin-minor :
    (p : Pin) (v w : Version)
    → has_pin p v ≡ true
    → (of_pin p).patch_updates ≡ true
    → w.major ≡ v.major
    → w.minor ≡ v.minor
    → has_pin p w ≡ true
has_pin-minor pin_none v w h e q r = ground arith
has_pin-minor (pin_major a) v w h e q r = ground arith
has_pin-minor (pin_minor a b) v w h e q r = ground arith
has_pin-minor (pin_patch a b c) v w h e q r = ground arith

of_pin-IsUpdated :
    (p : Pin) (vs : List Version) (v : Version)
    → IsLatest (has_pin p) vs (some v)
    → IsUpdated (of_pin p) vs v
of_pin-IsUpdated p vs v l = record {
  major = λ e w i. l.1.1 w i (has_pin-any p w e);
  minor = λ e w i q. l.1.1 w i (has_pin-major p v w l.1.0 e q);
  patch = λ e w i q r. l.1.1 w i (has_pin-minor p v w l.1.0 e q r);
}

module _ (image : String) (p : Pin) (open_image : is_locked_down image ≡ false) (h : IsPin p) where
  resolved-IsLatest :
      (vs : List Version) {v : Version}
      → IsAscending vs
      → resolve_broker_version vs (pin_text p) ≡ some v
      → IsLatest (has_pin p) vs (some v)
  resolved-IsLatest vs a e = rw e at (resolve_broker_version-IsLatest vs p a h)

  -- Where the image is left to the operator and the spec pins 64-bit numbers, the reported upgrades are
  -- true to the version that is resolved of ascending lists: a component that is reported as updated is
  -- the latest of the list for the components before it, and one that is not is the same whatever list a
  -- later operator brings.
  pub upgrade_status-IsKept :
      (versions others : List Version) {v w : Version}
      → IsAscending versions
      → IsAscending others
      → resolve_broker_version versions (pin_text p) ≡ some v
      → resolve_broker_version others (pin_text p) ≡ some w
      → IsUpdated (upgrade_status image (pin_text p)) versions v
        × IsKept (upgrade_status image (pin_text p)) v w
  upgrade_status-IsKept versions others {v} {w} a b e f =
      let l = resolved-IsLatest versions a e in
      let m = resolved-IsLatest others b f in
      rw (upgrade_status-pin_text image p open_image h)
        (of_pin-IsUpdated p versions v l, of_pin-IsKept p v w l.1.0 m.1.0)
