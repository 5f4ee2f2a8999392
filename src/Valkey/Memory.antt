-- ===== src/Valkey/Memory.antt =====
-- A keyspace in memory as the client.
use iam_catalog_admin.Base.{Option, none, some, [], ◌≡◌, refl, arith}
use iam_catalog_admin.Json as Json
use iam_catalog_admin.Domain.Errors.{redis_nil}
use iam_catalog_admin.Exec.{Result, ok, err}
use iam_catalog_admin.World.{Bytes}
use iam_catalog_admin.Valkey.{Client}
use iam_catalog_admin.Valkey.Contract.{IsClient}

abbrev pub reply : Option Bytes → Result Bytes
reply none = err redis_nil
reply (some b) = ok b

abbrev pub memory : Client
memory = record {
  get = λ k w. (reply (Json.get k w.cache), w);
  set = λ k b ttl w. (ok tt, record w { cache = Json.put k b w.cache });
  del = λ ks w. (ok tt, record w { cache = [] });
  ping = λ w. (ok tt, w);
}

held : (o : Option Bytes) (b : Bytes) → reply o ≡ ok b → o ≡ some b
held none b h = cc
held (some a) b h = ground (arith)

pub memory-IsClient : IsClient memory
unfolding Json.get
memory-IsClient = record {
  get_held = λ k w b h. held (Json.get k w.cache) b h;
  get_departments = λ k w. refl;
  set_departments = λ k b ttl w. refl;
  del_departments = λ ks w. refl;
  get_plans = λ k w. refl;
  set_plans = λ k b ttl w. refl;
  del_plans = λ ks w. refl;
  del_removes = λ k w h. refl;
}
