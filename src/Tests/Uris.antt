-- ===== src/Tests/Uris.antt =====
use evolution_exchange.Uri.Relative.{uri_relative-uri_concat}
use evolution_exchange.Uri.Escapes.{uri_decode-uri_encode}
use evolution_exchange.Prelude.{codes, false, none, ◌≡◌, arith}
use evolution_exchange.Uri.{uri_decode, uri_relative, uri_encode, uri_concat}

-- The results on uris, applied to concrete inputs.
escape_example : uri_decode (uri_encode (codes "a b%/") false none) ≡ codes "a b%/"
escape_example =
    uri_decode-uri_encode (codes "a b%/") none
      (omega arith, (omega arith, (omega arith, (omega arith, (omega arith, tt)))))

relative_example :
    (uri_concat (codes "http://h/a") (codes "b/c") ≡ codes "http://h/a/b/c")
    × (uri_relative (codes "http://h/a") (uri_concat (codes "http://h/a") (codes "b/c"))
        ≡ codes "b/c")
relative_example = uri_relative-uri_concat (codes "http://h/a") (codes "b/c") (omega arith)
