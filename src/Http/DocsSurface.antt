-- ===== src/Http/DocsSurface.antt =====
-- registerDocsRoutes of router.go, with swagger_theme.go and swagger_initializer.go: what a request to
-- /swagger/*any is answered, with its headers.
use iam_catalog_admin.Base.{
  ℕ, String, false, Option, none, some, List, [], ◌∷◌, ◌≡◌, refl, ◌∙◌, inl, inr, arith, ◌==◌,
  Bool-cases, if◌then◌else◌,
}
use iam_catalog_admin.Base.Text.{has_suffix}
use iam_catalog_admin.Json.Maps.{get-put_other}
use mathlib.Core.Path.{subst}
use iam_catalog_admin.Json.{Json, str, obj, of_members, get, put}
use iam_catalog_admin.Http.Router.{DocsConfig, Docs, unregistered, unauthorized, served, docs}

abbrev pub Headers : Type 0
Headers = List (String × String)

-- The two constant texts of the program, a JSON object, or what gin-swagger writes.
pub data Content : Type 0 where
  swagger_theme_css swagger_initializer_js : Content
  object : Json → Content
  bundled : String → Content

pub record Page : Type 0 where
  pub status : ℕ
  pub headers : Headers
  pub content : Content

-- A handler, on the headers that are set before it.
abbrev pub Handler : Type 0
Handler = Headers → Page

-- secHeaders
unfoldable pub sec_headers : Headers → Headers
unfolding put
sec_headers hs =
    let framed = put "X-Frame-Options" "DENY" hs in
    let sniffed = put "X-Content-Type-Options" "nosniff" framed in
    put "Content-Security-Policy"
      "default-src 'self'; script-src 'self' 'unsafe-inline' 'unsafe-eval'; style-src 'self' 'unsafe-inline'; img-src 'self' data:; font-src 'self' data:; connect-src 'self'"
      sniffed

-- c.Header twice, then c.String with 200
unfoldable pub asset : String → Content → Handler
unfolding put
asset content_type content hs = record {
  status = 200;
  headers = put "Cache-Control" "no-cache" (put "Content-Type" content_type hs);
  content = content;
}

unfoldable pub swagger_theme_handler : Handler
unfolding asset
swagger_theme_handler = asset "text/css; charset=utf-8" swagger_theme_css

unfoldable pub swagger_initializer_handler : Handler
unfolding asset
swagger_initializer_handler = asset "application/javascript; charset=utf-8" swagger_initializer_js

-- AbortWithStatusJSON of authMiddleware
unfoldable pub refused : Handler
unfolding put
refused hs = record {
  status = 401;
  headers = put "Content-Type" "application/json; charset=utf-8" hs;
  content = object (
      obj (
        of_members (
          ("code", str "unauthorized")
          ∷ ("message", str "docs require Authorization: Bearer <DOCS_AUTH_TOKEN>")
          ∷ [])));
}

-- `std_swagger` is the handler of gin-swagger, by the path.
module _ (std_swagger : String → Handler) where
  unfoldable pub swagger_any : String → Handler
  unfolding has_suffix swagger_theme_handler swagger_initializer_handler
  swagger_any path =
      if has_suffix path "/index.css"
      then swagger_theme_handler
      else if has_suffix path "/swagger-initializer.js"
      then swagger_initializer_handler
      else std_swagger path

  abbrev pub after_auth : String → Docs → Option Page
  after_auth path unregistered = none
  after_auth path unauthorized = some (refused (sec_headers []))
  after_auth path served = some (swagger_any path (sec_headers []))

  -- secHeaders, authMiddleware and the handler; `none` where the route is not registered.
  unfoldable pub docs_page : DocsConfig → String → String → Option Page
  unfolding sec_headers refused swagger_any
  docs_page d path authorization = after_auth path (docs d authorization)

-- The headers that guard the page in a browser.
pub record IsSecured (hs : Headers) : Type 0 where
  pub frame : get "X-Frame-Options" hs ≡ some "DENY"
  pub sniff : get "X-Content-Type-Options" hs ≡ some "nosniff"
  pub policy :
      get "Content-Security-Policy" hs
      ≡ some
          "default-src 'self'; script-src 'self' 'unsafe-inline' 'unsafe-eval'; style-src 'self' 'unsafe-inline'; img-src 'self' data:; font-src 'self' data:; connect-src 'self'"

-- A handler that leaves those three headers as they are.
pub record KeepsHeaders (h : Handler) : Type 0 where
  pub frame : (hs : Headers) → get "X-Frame-Options" (h hs).headers ≡ get "X-Frame-Options" hs
  pub sniff :
      (hs : Headers) → get "X-Content-Type-Options" (h hs).headers ≡ get "X-Content-Type-Options" hs
  pub policy :
      (hs : Headers)
      → get "Content-Security-Policy" (h hs).headers ≡ get "Content-Security-Policy" hs

asset_other :
    (t : String) (c : Content) (key : String) (hs : Headers)
    → ("Content-Type" == key) ≡ false
    → ("Cache-Control" == key) ≡ false
    → get key (asset t c hs).headers ≡ get key hs
unfolding asset
asset_other t c key hs k l =
    get-put_other "Cache-Control" key "no-cache" (put "Content-Type" t hs) l
    ∙ get-put_other "Content-Type" key t hs k

asset-KeepsHeaders : (t : String) (c : Content) → KeepsHeaders (asset t c)
asset-KeepsHeaders t c = record {
  frame = λ hs. asset_other t c "X-Frame-Options" hs refl refl;
  sniff = λ hs. asset_other t c "X-Content-Type-Options" hs refl refl;
  policy = λ hs. asset_other t c "Content-Security-Policy" hs refl refl;
}

-- A handler that writes the type of its content alone.
pub typed-KeepsHeaders :
    (t : String) (h : Handler)
    → ((hs : Headers) → (h hs).headers ≡ put "Content-Type" t hs)
    → KeepsHeaders h
typed-KeepsHeaders t h e = record {
  frame = λ hs. rw (e hs) (get-put_other "Content-Type" "X-Frame-Options" t hs refl);
  sniff = λ hs. rw (e hs) (get-put_other "Content-Type" "X-Content-Type-Options" t hs refl);
  policy = λ hs. rw (e hs) (get-put_other "Content-Type" "Content-Security-Policy" t hs refl);
}

refused-KeepsHeaders : KeepsHeaders refused
unfolding refused
refused-KeepsHeaders = typed-KeepsHeaders "application/json; charset=utf-8" refused (λ hs. refl)

secured : (h : Handler) → KeepsHeaders h → IsSecured (h (sec_headers [])).headers
unfolding sec_headers get put
secured h k = record {
  frame = k.frame (sec_headers []);
  sniff = k.sniff (sec_headers []);
  policy = k.policy (sec_headers []);
}

module _ (std_swagger : String → Handler)
    (keeps : (path : String) → KeepsHeaders (std_swagger path)) where
  swagger_any-KeepsHeaders : (path : String) → KeepsHeaders (swagger_any std_swagger path)
  unfolding swagger_any swagger_theme_handler swagger_initializer_handler
  swagger_any-KeepsHeaders path = elim (Bool-cases (has_suffix path "/index.css")) [
    | inl css ↦ rw css (asset-KeepsHeaders "text/css; charset=utf-8" swagger_theme_css)
    | inr rest ↦ elim (Bool-cases (has_suffix path "/swagger-initializer.js")) [
      | inl js ↦
          rw (rest, js)
            (asset-KeepsHeaders "application/javascript; charset=utf-8" swagger_initializer_js)
      | inr other ↦ rw (rest, other) (keeps path)
    ]
  ]

  -- If gin-swagger leaves X-Frame-Options, X-Content-Type-Options and Content-Security-Policy as they
  -- are, then whatever the path and the Authorization header are, an answer of the documentation's
  -- route, the 401 included, has these headers against framing, sniffing and foreign content.
  pub docs_page-IsSecured :
      (d : DocsConfig) (path authorization : String) (page : Page)
      → docs_page std_swagger d path authorization ≡ some page
      → IsSecured page.headers
  unfolding docs_page
  docs_page-IsSecured d path authorization page h = answered (docs d authorization) h
    where
      answered : (o : Docs) → after_auth std_swagger path o ≡ some page → IsSecured page.headers
      answered unregistered e = cc
      answered unauthorized e =
          let same : refused (sec_headers []) ≡ page = ground (arith, e) in
          subst (λ (x : Page). IsSecured x.headers) same (secured refused refused-KeepsHeaders)
      answered served e =
          let same : swagger_any std_swagger path (sec_headers []) ≡ page = ground (arith, e) in
          subst (λ (x : Page). IsSecured x.headers) same
            (secured (swagger_any std_swagger path) (swagger_any-KeepsHeaders path))
