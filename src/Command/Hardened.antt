-- ===== src/Command/Hardened.antt =====
-- The servers that cmd/main.go asks for: their TLS options and the filter of the metrics.
use helios_lb.Prelude.{
  ◌≡◌, refl, true, false, List, [], ◌∷◌, ◌++◌, none, some, Bool, if◌then◌else◌, codes,
}
use helios_lb.Command.{
  Flags, TlsConfig, TlsOption, disable_http2, tls_opts, webhook_server, metrics_server_options,
  manager_options,
}

-- A server applies its options in order.
abbrev pub AppliesInOrder : (List TlsOption → TlsConfig) → Type 0
AppliesInOrder configure =
    (opts : List TlsOption) (f : TlsOption) → configure (opts ++ f ∷ []) ≡ f (configure opts)

-- Without the flag for HTTP/2, the server speaks HTTP/1.1 alone; with it, the config is its own.
abbrev pub SpeaksAsAsked : Flags → (List TlsOption → TlsConfig) → List TlsOption → Type 0
SpeaksAsAsked flags configure opts = configure opts ≡ (
    if flags.enable_http2
    then configure []
    else record (configure []) { next_protos = codes "http/1.1" ∷ [] })

tls_opts-SpeakAsAsked :
    (flags : Flags) (configure : List TlsOption → TlsConfig)
    → AppliesInOrder configure
    → SpeaksAsAsked flags configure (tls_opts flags)
unfolding tls_opts disable_http2
tls_opts-SpeakAsAsked flags configure h = speaks flags.enable_http2
  where
    speaks :
        (b : Bool)
        → configure (if b then [] else [] ++ disable_http2 ∷ []) ≡ (
            if b
            then configure []
            else record (configure []) { next_protos = codes "http/1.1" ∷ [] })
    speaks true = refl
    speaks false = h [] disable_http2

-- Where a server applies its TLS options in order to a config of its own, the webhook and the metrics
-- server speak HTTP/1.1 alone, unless HTTP/2 is enabled, when they keep their configs; and the metrics
-- are behind the filter for authentication and authorization when they are served by HTTPS, and only
-- then.
pub manager_options-Hardened :
    {S F : Type 0}
    → (auth : F) (scheme : S) (flags : Flags) (configure : List TlsOption → TlsConfig)
    → AppliesInOrder configure
    → let o = manager_options auth scheme flags in
      SpeaksAsAsked flags configure o.webhook.webhook_tls_opts
      × SpeaksAsAsked flags configure o.metrics.metrics_tls_opts
      × (o.metrics.filter_provider ≡ (if o.metrics.secure_serving then some auth else none))
unfolding manager_options webhook_server metrics_server_options
manager_options-Hardened auth scheme flags configure h =
    let speaks = tls_opts-SpeakAsAsked flags configure h in (speaks, speaks, refl)
