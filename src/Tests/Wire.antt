-- ===== src/Tests/Wire.antt =====
-- Runs of src/sock.c, src/ini.c and src/http.c.
use shclaw.Util.Buf.{concat}
use shclaw.Http.Body.{http_dechunk}
use shclaw.Http.Body.Chunks.{IsSize, chunked, http_dechunk-chunked}
use shclaw.Base.{
  ℕ, ◌+◌, ◌*◌, ◌/◌, ◌%◌, ltb, within, Option, none, List, Bytes, ◌∷◌, zero, suc, if◌then◌else◌, ◌-◌,
  ◌<◌, ◌≡◌, refl, false, some, [], ◌++◌, arith, codes, take, length, All,
}
use shclaw.Base.Int.{pos}
use Prim.Native.Nat.{min}
use shclaw.Sock.{
  sock_send, sock_read_cmd, read_body, read_full, read_u32, discard, chunk_size, to_read,
}
use shclaw.Sock.Framing.{sock_read_cmd-sock_send}
use shclaw.Ini.{ini_load, ini_get, ini_unescape}
use shclaw.Ini.Unescape.{escape, ini_unescape-escape}
use shclaw.Http.Url.{parse_url, encode_path}
use shclaw.Http.Url.Parsed.{Whenever, IsUsable, parse_url-IsUsable}
use shclaw.Http.Url.Encoded.{Fits, encode_path-Fits}

sock_read_cmd-sock_send_example :
    sock_read_cmd 4 (sock_send 2 (some (codes "hello")) (length (codes "hello")) ++ codes "xy")
    ≡ some (record { type = 2; text = take (4 - 1) (codes "hello"); rest = codes "xy" })
sock_read_cmd-sock_send_example =
    sock_read_cmd-sock_send 2 4 (codes "hello") (codes "xy") (omega arith) (omega arith)

short_read :
    sock_read_cmd 100 (sock_send 2 (some (codes "hello")) 3)
    ≡ some (record { type = 2; text = codes "hel"; rest = [] })
unfolding sock_read_cmd sock_send read_body read_full read_u32 discard chunk_size to_read
short_read = refl

ini_unescape-escape_example : ini_unescape 10 (escape (codes "a\n\"b")) ≡ codes "a\n\"b"
ini_unescape-escape_example = ini_unescape-escape 10 (codes "a\n\"b") (omega arith)

ini_run :
    ini_get
      (ini_load (some (codes "; x\n[irc]\nnick = bot\\\n ty \nk=v\n")))
      (codes "irc")
      (codes "nick")
    ≡ some (codes "bot ty")
unfolding ini_load ini_get
ini_run = refl

small : All (λ c. c < 256) (codes "/New York")
small = ground arith

encoded_run : encode_path (codes "/New York") 20 ≡ some (codes "/New%20York")
unfolding encode_path
encoded_run = refl

encode_path-Fits_example : Fits 20 (codes "/New%20York")
encode_path-Fits_example =
    encode_path-Fits (codes "/New York") 20 (codes "/New%20York") small (omega arith) encoded_run

url_run :
    parse_url (λ s. pos 8080) (some (codes "http://[::1]:8080?q=1#top"))
    ≡ some (record { host = codes "::1"; port = pos 8080; path = codes "/?q=1"; is_https = false })
unfolding parse_url
url_run = refl

abbrev nibble : ℕ → ℕ
nibble d = if ltb d 10 then b'0' + d else b'a' + (d - 10)

-- `%lx`, a size being below 2^64
abbrev hex_from : ℕ → ℕ → Bytes → Bytes
hex_from zero n s = s
hex_from (suc fuel) n s =
    let more = hex_from fuel (n / 16) (nibble (n % 16) ∷ s) in
    if ltb n 16 then nibble n ∷ s else more

abbrev hex : ℕ → Bytes
hex n = hex_from 16 n []

abbrev digit_of : ℕ → Option ℕ
digit_of c =
    if within b'0' b'9' c
    then some (c - b'0')
    else if within b'a' b'f' c
    then some (c - b'a' + 10)
    else none

-- `strtoul(s, NULL, 16)` on digits: it stops at 2^64 - 1.
abbrev strtoul_from : ℕ → Bytes → ℕ
strtoul_from n [] = n
strtoul_from n (c ∷ s) = elim (digit_of c) [
  | none ↦ n
  | some d ↦ strtoul_from (min (n * 16 + d) 18446744073709551615) s
]

abbrev strtoul : Bytes → ℕ
strtoul s = strtoul_from 0 s

abbrev parts : List Bytes
parts = codes "a pot of green tea" ∷ codes "!" ∷ []

sizes : IsSize strtoul hex 0 × IsSize strtoul hex 18 × IsSize strtoul hex 1
sizes = (
  record { no_break = (refl, tt); reads = λ rest. refl },
  record { no_break = (refl, (refl, tt)); reads = λ rest. refl },
  record { no_break = (refl, tt); reads = λ rest. refl },
)

saturated : strtoul (codes "11111111111111111\r\n") ≡ 18446744073709551615
saturated = refl

http_dechunk-chunked_example : http_dechunk strtoul (chunked hex parts) ≡ concat parts
http_dechunk-chunked_example =
    http_dechunk-chunked strtoul hex parts sizes.0 (sizes.1, (sizes.2, tt)) (refl, (refl, tt))

parse_url-IsUsable_example :
    Whenever IsUsable (parse_url (λ s. pos 8080) (some (codes "http://[::1]:8080?q=1#top")))
parse_url-IsUsable_example =
    parse_url-IsUsable (λ s. pos 8080) (some (codes "http://[::1]:8080?q=1#top"))
