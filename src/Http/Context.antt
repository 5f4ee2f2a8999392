-- ===== src/Http/Context.antt =====
-- pkg/requestctx/context.go, and what the handlers see of a request through gin.
use iam_catalog_admin.Base.{String, Bool, Option, ℤ, List, any, ◌==◌}
use iam_catalog_admin.Json.{Json}
use iam_catalog_admin.Domain.{Uuid}

pub record RequestContext : Type 0 where
  pub user_id : Uuid
  pub tenant_id : Uuid
  pub roles : List String
  pub client_ip : String
  pub user_agent : String

unfoldable pub has_role : RequestContext → String → Bool
unfolding any
has_role rc role = any (λ r. r == role) rc.roles

unfoldable pub is_operator : RequestContext → Bool
unfolding has_role
is_operator rc = has_role rc "platform_operator"

unfoldable pub is_system : RequestContext → Bool
unfolding has_role
is_system rc = has_role rc "iam-system"

-- The bytes of a request's body, up to the cap of 1 MB: none; a JSON document and nothing but
-- spaces; a document and more; or something that does not begin with a document.
pub data Body : Type 0 where
  no_body : Body
  document : Json → Body
  document_then : Json → Body
  malformed : Body

-- gincommon's record of the gateway's headers.
pub record PlatformContext : Type 0 where
  pub user_id : String
  pub tenant_id : String
  pub roles : List String
  pub client_ip : String

-- `route` is the template that the path matches, empty if none does; `id` is its last parameter.
-- `content_length` is -1 for a chunked body.
pub record Request : Type 0 where
  pub method : String
  pub route : String
  pub path : String
  pub id : String
  pub active_only : String
  pub content_length : ℤ
  pub content_type : String
  pub body : Body
  pub user_agent : String
  pub authorization : String
  pub trace_id : String
  pub context_request_id : String
  pub header_request_id : String
  pub response_request_id : String

-- What a handler is called with: the request, and the identity that the bridge stored.
pub record Ctx : Type 0 where
  pub request : Request
  pub identity : Option RequestContext
