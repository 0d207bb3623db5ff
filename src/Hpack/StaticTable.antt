-- ===== src/Hpack/StaticTable.antt =====
-- src/hpack.h, HeaderField, and src/hpack.cpp, kStaticTable: the static table of RFC 7541, Appendix A.
use log_squirl_tcpdump.Common.{ℕ, List, [], ◌∷◌}
use Prim.Native.Char.{code}
use Prim.Native.String.{String}

pub record HeaderField : Type 0 where
  pub name : List ℕ
  pub value : List ℕ

-- The bytes of an ASCII text.
abbrev pub codes : String → List ℕ
codes String.[] = []
codes (String.◌∷◌ c s) = code c ∷ codes s

abbrev entry : String → String → HeaderField
entry name value = record { name = codes name; value = codes value }

unfoldable pub static_table : List HeaderField
static_table =
    entry ":authority" ""
    ∷ entry ":method" "GET"
    ∷ entry ":method" "POST"
    ∷ entry ":path" "/"
    ∷ entry ":path" "/index.html"
    ∷ entry ":scheme" "http"
    ∷ entry ":scheme" "https"
    ∷ entry ":status" "200"
    ∷ entry ":status" "204"
    ∷ entry ":status" "206"
    ∷ entry ":status" "304"
    ∷ entry ":status" "400"
    ∷ entry ":status" "404"
    ∷ entry ":status" "500"
    ∷ entry "accept-charset" ""
    ∷ entry "accept-encoding" "gzip, deflate"
    ∷ entry "accept-language" ""
    ∷ entry "accept-ranges" ""
    ∷ entry "accept" ""
    ∷ entry "access-control-allow-origin" ""
    ∷ entry "age" ""
    ∷ entry "allow" ""
    ∷ entry "authorization" ""
    ∷ entry "cache-control" ""
    ∷ entry "content-disposition" ""
    ∷ entry "content-encoding" ""
    ∷ entry "content-language" ""
    ∷ entry "content-length" ""
    ∷ entry "content-location" ""
    ∷ entry "content-range" ""
    ∷ entry "content-type" ""
    ∷ entry "cookie" ""
    ∷ entry "date" ""
    ∷ entry "etag" ""
    ∷ entry "expect" ""
    ∷ entry "expires" ""
    ∷ entry "from" ""
    ∷ entry "host" ""
    ∷ entry "if-match" ""
    ∷ entry "if-modified-since" ""
    ∷ entry "if-none-match" ""
    ∷ entry "if-range" ""
    ∷ entry "if-unmodified-since" ""
    ∷ entry "last-modified" ""
    ∷ entry "link" ""
    ∷ entry "location" ""
    ∷ entry "max-forwards" ""
    ∷ entry "proxy-authenticate" ""
    ∷ entry "proxy-authorization" ""
    ∷ entry "range" ""
    ∷ entry "referer" ""
    ∷ entry "refresh" ""
    ∷ entry "retry-after" ""
    ∷ entry "server" ""
    ∷ entry "set-cookie" ""
    ∷ entry "strict-transport-security" ""
    ∷ entry "transfer-encoding" ""
    ∷ entry "user-agent" ""
    ∷ entry "vary" ""
    ∷ entry "via" ""
    ∷ entry "www-authenticate" ""
    ∷ []
