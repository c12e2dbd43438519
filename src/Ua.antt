-- ===== src/Ua.antt =====
-- internal/ua/ua.go: coarse buckets of a User-Agent. The parser of mileusna/useragent, of which the
-- source reads six fields, is the argument `parse_agent`.
use glimt.Base.{Bool, Bytes, codes, before, if◌then◌else◌}

pub record UserAgent : Type 0 where
  pub bot : Bool
  pub tablet : Bool
  pub mobile : Bool
  pub name : Bytes
  pub version : Bytes
  pub os : Bytes

pub record Result : Type 0 where
  pub browser : Bytes
  pub browser_ver : Bytes
  pub os : Bytes
  pub device : Bytes

-- The part of a version before the first dot.
unfoldable pub major_version : Bytes → Bytes
major_version v = before b'.' v

unfoldable pub parse : (Bytes → UserAgent) → Bytes → Result
unfolding major_version
parse parse_agent s =
    let u = parse_agent s in
    record {
      browser = u.name;
      browser_ver = major_version u.version;
      os = u.os;
      device =
          if u.bot
          then codes "bot"
          else if u.tablet
          then codes "tablet"
          else if u.mobile
          then codes "mobile"
          else codes "desktop";
    }
