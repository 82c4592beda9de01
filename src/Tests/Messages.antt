-- ===== src/Tests/Messages.antt =====
-- The messages of redirects, the addresses for guests and the tokens of pages at concrete inputs.
use hubabox.Base.{true, false, [], ◌∷◌, ◌≡◌, refl, ok, err, system, none, some}
use hubabox.Text.{Text, codes, ascii}
use hubabox.NetUtil.{Iface, ip_text, add_addrs, add_ifaces, lan_ipv4_strings}
use hubabox.Server.{get, csrf_cookie}
use hubabox.Server.Headers.{csrf_token}
use hubabox.Tests.Requests.{ask}
use hubabox.Server.Flash.{parse_query, files_list_flash, transport_warning}

messages : Unit {0}
unfolding parse_query files_list_flash hubabox.Server.Flash.query_pairs
    hubabox.Server.Flash.query_unescape hubabox.Server.Flash.upload_flash_message
    hubabox.Server.Flash.flash_message hubabox.Text.Split.split hubabox.Text.Split.cut
    hubabox.Text.contains_rune hubabox.Text.Urls.path_unescape hubabox.Text.Urls.unescape_from
    hubabox.Text.Bytes.bytes hubabox.Text.Bytes.text_of_bytes hubabox.Text.Bytes.decode_from
    hubabox.Text.text_eq hubabox.Text.Assoc.find
messages = tt

abbrev shown : Text → Text
shown query = files_list_flash (parse_query query)

-- The query of a redirect whose code has a plus sign is read with a space, and shows nothing.
runs :
    (shown (codes "msg=import_ok&in=2&sk=1")
      ≡ codes "Import: copied 2 file(s); skipped 1 (folders, hidden, junk, too large, or errors).")
    × (shown (codes "msg=import_err&why=no+such%20dir") ≡ codes "Import failed: no such dir")
    × (shown (codes "msg=import_err&why=%zz") ≡ codes "Import failed: unknown error")
    × (shown (codes "msg=uploaded&n=3") ≡ codes "Uploaded 3 files.")
    × (shown (codes "msg=uploaded") ≡ codes "File uploaded.")
    × (shown (codes "msg=library_err") ≡ codes "Library setting could not be updated.")
    × (shown (codes "msg=upload+failed") ≡ [])
    × (shown (codes "msg=delete+none") ≡ [])
    × (shown (codes "msg=delete%2Bnone") ≡ codes "Select at least one file to delete.")
unfolding messages
runs = (refl, refl, refl, refl, refl, refl, refl, refl, refl)

abbrev wifi : Iface
wifi = record {
  name = codes "wlan0";
  up = true;
  loopback = false;
  addrs = ok (
      some (record { a = 192; b = 168; c = 0; d = 7 })
      ∷ none
      ∷ some (record { a = 10; b = 0; c = 0; d = 2 })
      ∷ some (record { a = 8; b = 8; c = 8; d = 8 })
      ∷ some (record { a = 10; b = 0; c = 0; d = 2 })
      ∷ []);
}

abbrev bridge : Iface
bridge = record wifi { name = codes " Docker0" }

lan_runs :
    (lan_ipv4_strings ascii (ok (bridge ∷ wifi ∷ []))
      ≡ ok (codes "10.0.0.2" ∷ codes "192.168.0.7" ∷ []))
    × (lan_ipv4_strings ascii (ok (bridge ∷ [])) ≡ ok [])
unfolding lan_ipv4_strings add_ifaces add_addrs ip_text hubabox.Text.Decimal.itoa
    hubabox.Text.Decimal.digits hubabox.Text.text_eq hubabox.Text.has_prefix hubabox.Text.to_lower
    hubabox.Text.trim_space hubabox.Base.sort_by hubabox.Base.insert_by hubabox.Text.Order.text_less
    hubabox.Text.Order.bytes_less hubabox.Text.Bytes.bytes
lan_runs = (refl, refl)

-- The token of a page is the one that the browser has, or a new one with its cookie.
abbrev old_token : Text
old_token = codes "0123456789abcdef0123456789abcdef"

token_runs :
    (csrf_token
        (record (ask get (codes "/") [] []) { cookies = (csrf_cookie, old_token) ∷ [] })
        (err system)
      ≡ (old_token, []))
    × ((csrf_token
          (record (ask get (codes "/") [] []) { cookies = (csrf_cookie, codes "short") ∷ [] })
          (ok (1 ∷ 2 ∷ 3 ∷ []))).0
        ≡ codes "AQID")
    × (csrf_token (record (ask get (codes "/") [] []) { cookies = [] }) (err system) ≡ ([], []))
unfolding csrf_token hubabox.Auth.Base64.base64_raw_url hubabox.Text.text_eq hubabox.Text.Assoc.find
token_runs = (refl, refl, refl)
