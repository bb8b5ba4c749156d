-- ===== src/Netutil/Load.antt =====
-- internal/netutil/netutil.go: where the list of trusted proxies comes from. The files behind
-- `hotswap.ScriptDir` and the hub are parameters: what a read of a relative path gives.
use rocksys.Base.{Bool, if◌then◌else◌, Bytes, Option, none, some}
use rocksys.Netutil.{
  Net, TrustedProxyList, Parsed, ProxyFailure, fails, reads, parse_trusted_proxies,
  apply_trusted_proxies_text,
}
use rocksys.Netutil.Paths.{PathFailure, Checked, refused, goes, safe_rel_path}

pub data LoadFailure : Type 0 where
  bad_path : PathFailure → LoadFailure
  not_registered : LoadFailure
  not_subscribed : LoadFailure
  not_read : LoadFailure
  bad_text : ProxyFailure → LoadFailure

module _ {Ip Block : Type 0} (net : Net Ip Block) where
  -- `none` is the panic of a program whose own list cannot be read.
  unfoldable pub parsed_or_panic : Parsed Ip Block → Option (TrustedProxyList Ip Block)
  parsed_or_panic (fails e) = none
  parsed_or_panic (reads l) = some l

  unfoldable pub init : Option Bytes → Option (TrustedProxyList Ip Block)
  unfolding parsed_or_panic parse_trusted_proxies
  init none = none
  init (some text) = parsed_or_panic (parse_trusted_proxies net text)

module _ {Ip Block : Type 0} where
  with_failure :
      Option (TrustedProxyList Ip Block) × Option ProxyFailure
      → Option (TrustedProxyList Ip Block) × Option LoadFailure
  with_failure (l, none) = (l, none)
  with_failure (l, some e) = (l, some (bad_text e))

module _ {Ip Block : Type 0} (net : Net Ip Block) where
  unfoldable pub apply_read :
      Option (TrustedProxyList Ip Block)
      → Option Bytes
      → Option (TrustedProxyList Ip Block) × Option LoadFailure
  unfolding apply_trusted_proxies_text with_failure
  apply_read old none = (old, some not_read)
  apply_read old (some text) = with_failure (apply_trusted_proxies_text net old text)

  unfoldable pub load_checked :
      (Bytes → Option Bytes)
      → Option (TrustedProxyList Ip Block)
      → Checked
      → Option (TrustedProxyList Ip Block) × Option LoadFailure
  unfolding apply_read
  load_checked read old (refused e) = (old, some (bad_path e))
  load_checked read old (goes rel) = apply_read old (read rel)

  unfoldable pub load_trusted_proxies :
      (Bytes → Option Bytes)
      → Option (TrustedProxyList Ip Block)
      → Bytes
      → Option (TrustedProxyList Ip Block) × Option LoadFailure
  unfolding load_checked safe_rel_path
  load_trusted_proxies read old path = load_checked read old (safe_rel_path path)

  -- With whether the hub takes the registration and the subscription. The callback that is
  -- subscribed does `apply_read`, at every change of the files.
  unfoldable pub subscribe_checked :
      Bool
      → Bool
      → (Bytes → Option Bytes)
      → Option (TrustedProxyList Ip Block)
      → Checked
      → Option (TrustedProxyList Ip Block) × Option LoadFailure
  unfolding apply_read
  subscribe_checked registers subscribes read old (refused e) = (old, some (bad_path e))
  subscribe_checked registers subscribes read old (goes rel) =
      if registers
      then (if subscribes then apply_read old (read rel) else (old, some not_subscribed))
      else (old, some not_registered)

  unfoldable pub subscribe_hub :
      Bool
      → Bool
      → (Bytes → Option Bytes)
      → Option (TrustedProxyList Ip Block)
      → Bytes
      → Option (TrustedProxyList Ip Block) × Option LoadFailure
  unfolding subscribe_checked safe_rel_path
  subscribe_hub registers subscribes read old path =
      subscribe_checked registers subscribes read old (safe_rel_path path)
