-- ===== src/Valkey/Options.antt =====
-- New of internal/adapter/outbound/valkey/cache.go: the options of the client that it makes.
use iam_catalog_admin.Base.{ℕ, String, Option, none, some, ℤ, pos, eq_ℤ, ◌*◌, if◌then◌else◌}

-- redis.Options as far as New looks into it; `rest` is all that it leaves alone. A time.Duration is
-- in nanoseconds.
pub record Options (R : Type 0) : Type 0 where
  pub addr : String
  pub dial_timeout : ℤ
  pub read_timeout : ℤ
  pub write_timeout : ℤ
  pub rest : R

abbrev pub milliseconds : ℕ → ℤ
milliseconds n = pos (n * 1000000)

-- if *d == 0 { *d = default }
abbrev pub or_default : ℤ → ℤ → ℤ
or_default d default = if eq_ℤ d (pos 0) then default else d

-- `zero_rest` is what Go's zero value has in the other fields, and `parse_url` is redis.ParseURL.
module _ {R : Type 0} (zero_rest : R) (parse_url : String → Option (Options R)) where
  abbrev pub parsed_or_plain : String → Option (Options R) → Options R
  parsed_or_plain addr (some opts) = opts
  parsed_or_plain addr none = record {
    addr = addr;
    dial_timeout = pos 0;
    read_timeout = pos 0;
    write_timeout = pos 0;
    rest = zero_rest;
  }

  -- The argument of redis.NewClient.
  unfoldable pub new : String → Options R
  new addr =
      let opts = parsed_or_plain addr (parse_url addr) in
      record opts {
        dial_timeout = or_default opts.dial_timeout (milliseconds 100);
        read_timeout = or_default opts.read_timeout (milliseconds 50);
        write_timeout = or_default opts.write_timeout (milliseconds 50);
      }
