-- ===== src/Sidecar/Images.antt =====
-- When the image of a container is pulled by default: `Defaults` of internal/sidecar/types.go, against
-- the parts of a reference to an image.
use exasol_personal.Common.{
  ◌≡◌, false, Option, none, some, [], ◌∷◌, ◌++◌, Bytes, codes, bytes_eq, if◌then◌else◌,
}
use exasol_personal.Sidecar.Document.{has_byte}

pub data Version : Type 0 where
  untagged : Version
  tagged digest : Bytes → Version

-- `path` is what stands in front of the last "/": a registry, with its port, and the folders.
pub record Image : Type 0 where
  pub path : Option Bytes
  pub name : Bytes
  pub version : Version

abbrev pub print_version : Version → Bytes
print_version untagged = []
print_version (tagged t) = b':' ∷ t
print_version (digest d) = b'@' ∷ d

abbrev pub behind_path : Option Bytes → Bytes → Bytes
behind_path none s = s
behind_path (some p) s = p ++ (b'/' ∷ s)

abbrev pub print_image : Image → Bytes
print_image i = behind_path i.path (i.name ++ print_version i.version)

abbrev pub IsPath : Option Bytes → Type 0
IsPath none = Unit {0}
IsPath (some p) = has_byte b'@' p ≡ false

abbrev pub IsVersion : Version → Type 0
IsVersion untagged = Unit {0}
IsVersion (tagged t) =
    (has_byte b'/' t ≡ false) × (has_byte b':' t ≡ false) × (has_byte b'@' t ≡ false)
IsVersion (digest d) = Unit {0}

pub record IsImage (i : Image) : Type 0 where
  pub path : IsPath i.path
  pub no_slash : has_byte b'/' i.name ≡ false
  pub no_colon : has_byte b':' i.name ≡ false
  pub no_at : has_byte b'@' i.name ≡ false
  pub version : IsVersion i.version

-- always where the reference can come to stand for another image
abbrev pub pull_policy_of : Version → Bytes
pull_policy_of untagged = codes "Always"
pull_policy_of (tagged t) =
    if bytes_eq t (codes "latest") then codes "Always" else codes "IfNotPresent"
pull_policy_of (digest d) = codes "IfNotPresent"
