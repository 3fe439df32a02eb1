-- ===== src/Client.antt =====
-- internal/telegram/client/client.go: what New checks, and what it configures. Its middleware is Retry.handle.
use telecollection.Prelude.{
  ℤ, pos, leb_ℤ, ◌==◌, Bytes, codes, length, is_empty, not, ◌||◌, Result, ok, err, panicked, new,
  wrap, if◌then◌else◌,
}
use telecollection.Crypto.{key_len}
use telecollection.Session.{is_path}
use telecollection.Retry.{default_flood_retries}

-- Config
pub record ClientConfig : Type 0 where
  pub api_id : ℤ
  pub api_hash : Bytes
  pub session_path : Bytes
  pub key : Bytes
  pub proxy_url : Bytes

-- What the client is built with: the file and the key of its session, the retries of its middleware,
-- and the proxy, which is kept and not used.
pub record Client : Type 0 where
  pub api_id : ℤ
  pub api_hash : Bytes
  pub session_path : Bytes
  pub session_key : Bytes
  pub max_retries : ℤ
  pub proxy_url : Bytes

abbrev check_scheme : Result Bytes → Result (Unit {0})
unfolding is_path
check_scheme panicked = panicked
check_scheme (err e) = err (wrap "client: parsing proxy URL" e)
check_scheme (ok scheme) =
    if is_path scheme (codes "socks5") || is_path scheme (codes "socks5h")
    then ok tt
    else err (new "client: unsupported proxy scheme")

-- validateProxyURL; `url_scheme` is url.Parse, with the scheme of the URL.
unfoldable pub validate_proxy_url : (url_scheme : Bytes → Result Bytes) → Bytes → Result (Unit {0})
unfolding check_scheme
validate_proxy_url url_scheme url = check_scheme (url_scheme url)

abbrev configured : ClientConfig → Result (Unit {0}) → Result Client
configured cfg panicked = panicked
configured cfg (err e) = err e
configured cfg (ok a) = ok (record {
  api_id = cfg.api_id;
  api_hash = cfg.api_hash;
  session_path = cfg.session_path;
  session_key = cfg.key;
  max_retries = default_flood_retries;
  proxy_url = cfg.proxy_url;
})

-- New
unfoldable pub new_client : (url_scheme : Bytes → Result Bytes) → ClientConfig → Result Client
unfolding validate_proxy_url
new_client url_scheme cfg =
    if leb_ℤ cfg.api_id (pos 0)
    then err (new "client: APIID must be positive")
    else if is_empty cfg.api_hash
    then err (new "client: APIHash is required")
    else if is_empty cfg.session_path
    then err (new "client: SessionPath is required")
    else if not (length cfg.key == key_len)
    then err (new "client: Key must be 32 bytes")
    else if is_empty cfg.proxy_url
    then configured cfg (ok tt)
    else configured cfg (validate_proxy_url url_scheme cfg.proxy_url)
