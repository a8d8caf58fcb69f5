-- ===== src/Backbone/Report.antt =====
-- src/backbone.c: the reports in JSON. The texts are built in buffers of a fixed size.
use meshcore_repeater.Common.{
  ℕ, zero, suc, ◌+◌, ◌-◌, ◌*◌, ◌/◌, ◌%◌, ◌^◌, Bool, true, false, not, ◌&&◌, ◌||◌, List, [], ◌∷◌,
  ◌++◌, Option, none, some, ltb, leb, ◌==◌, if◌then◌else◌, length, take, drop, ℤ, pos, negsuc,
}
use meshcore_repeater.Common.Text.{codes, decimal, decimal2}
use meshcore_repeater.Util.Hex.{hex_digit, hex_digits}
use meshcore_repeater.Mesh.State.{Neighbor}
use meshcore_repeater.Backbone.State.{Client, Net, send_session}

-- BB_T_* of the datagrams to the hub.
abbrev pub bb_t_keepalive : ℕ
bb_t_keepalive = 0x10

abbrev pub bb_t_status : ℕ
bb_t_status = 0x13

abbrev pub bb_t_neighbours : ℕ
bb_t_neighbours = 0x14

abbrev pub bb_status_json : ℕ
bb_status_json = 1100

abbrev pub bb_page_wrap : ℕ
bb_page_wrap = 48

-- `jbuf_t`.
pub record Jbuf : Type 0 where
  pub text : List ℕ
  pub cap : ℕ
  pub full : Bool

abbrev pub empty_jbuf : ℕ → Jbuf
empty_jbuf cap = record { text = []; cap = cap; full = false }

-- What vsnprintf printed, if it and its NUL still fit.
unfoldable pub jb_add : Jbuf → List ℕ → Jbuf
jb_add j s =
    if j.full
    then j
    else if leb (j.cap - length j.text) (length s)
    then record j { full = true }
    else record j { text = j.text ++ s }

-- Continuation bytes: the code point, if `n` of them stand at the head.
unfoldable pub utf8_tail : ℕ → List ℕ → ℕ → Option ℕ
utf8_tail zero s cp = some cp
utf8_tail (suc n) [] cp = none
utf8_tail (suc n) (c ∷ s) cp =
    let rest = utf8_tail n s (cp * 2 ^ 6 + c % 64) in if c / 64 == 2 then rest else none

-- A sequence of `n` bytes whose code point is not below `min`, and no surrogate.
unfoldable pub utf8_checked : ℕ → ℕ → List ℕ → ℕ → ℕ
unfolding utf8_tail
utf8_checked n cp s min = elim (utf8_tail (n - 1) s cp) [
  | none ↦ 0
  | some point ↦
      if ltb point min || (ltb 0x10ffff point || (leb 0xd800 point && leb point 0xdfff))
      then 0
      else n
]

-- The masks on the lead byte are written as quotients. The end of the text is the NUL.
unfoldable pub utf8_seq : ℕ → List ℕ → ℕ
unfolding utf8_checked
utf8_seq c s =
    if ltb c 0x80
    then 1
    else if c / 2 ^ 5 == 6
    then utf8_checked 2 (c % 2 ^ 5) s 0x80
    else if c / 2 ^ 4 == 14
    then utf8_checked 3 (c % 2 ^ 4) s 0x800
    else if c / 2 ^ 3 == 30
    then utf8_checked 4 (c % 2 ^ 3) s 0x10000
    else 0

-- One character of a JSON string, with `n` bytes of text.
unfoldable pub json_char : ℕ → ℕ → List ℕ → List ℕ
json_char n c s =
    if n == 0
    then codes "?"
    else if c == 0x22 || c == 0x5c
    then 0x5c ∷ c ∷ []
    else if ltb c 0x20
    then codes "\\u00" ++ (hex_digit (c / 2 ^ 4) ∷ hex_digit (c % 2 ^ 4) ∷ [])
    else take n (c ∷ s)

-- The loop of jb_str. The fuel counts bytes.
unfoldable pub json_chars : ℕ → List ℕ → Jbuf → Jbuf
json_chars fuel [] j = j
json_chars zero (c ∷ s) j = j
json_chars (suc fuel) (c ∷ s) j =
    let n = utf8_seq c s in json_chars fuel (drop (n - 1) s) (jb_add j (json_char n c s))

unfoldable pub jb_str : Jbuf → List ℕ → Jbuf
jb_str j s = jb_add (json_chars (length s) s (jb_add j (0x22 ∷ []))) (0x22 ∷ [])

unfoldable pub magnitude : ℤ → ℕ
magnitude (pos n) = n
magnitude (negsuc n) = n + 1

unfoldable pub minus_sign : ℤ → List ℕ
minus_sign (pos n) = []
minus_sign (negsuc n) = codes "-"

-- "%d".
unfoldable pub signed_decimal : ℤ → List ℕ
unfolding magnitude minus_sign
signed_decimal x = minus_sign x ++ decimal (magnitude x)

-- "%.2f" of a quarter of an integer.
unfoldable pub quarter_decimal : ℤ → List ℕ
unfolding magnitude minus_sign
quarter_decimal x =
    minus_sign x ++ (decimal (magnitude x / 4) ++ (codes "." ++ decimal2 (magnitude x % 4 * 25)))

unfoldable pub neighbour_text : Neighbor → ℕ → Jbuf → Jbuf
unfolding jb_add jb_str signed_decimal quarter_decimal
neighbour_text n now_s j =
    let age = if ltb n.last_seen now_s then now_s - n.last_seen else 0 in
    let key = jb_add j (codes "{\"pub\":\"" ++ (hex_digits n.public_key ++ codes "\",\"name\":")) in
    jb_add (jb_str key n.name) (
      codes ",\"type\":"
      ++ (decimal n.type
          ++ (codes ",\"hops\":"
              ++ (decimal n.hops
                  ++ (codes ",\"rssi\":"
                      ++ (signed_decimal n.rssi
                          ++ (codes ",\"snr\":"
                              ++ (quarter_decimal n.snr_q
                                  ++ (codes ",\"age\":"
                                      ++ (decimal age
                                          ++ (codes ",\"count\":"
                                              ++ (decimal n.count ++ codes "}"))))))))))))

-- `none` for 0: it did not fit.
unfoldable pub neighbour_json : Neighbor → ℕ → ℕ → Option (List ℕ)
unfolding neighbour_text
neighbour_json n now_s cap =
    let j = neighbour_text n now_s (empty_jbuf cap) in if j.full then none else some j.text

-- The texts of the neighbours in use, in the order of the table.
unfoldable pub neighbour_texts : List Neighbor → ℕ → List (List ℕ)
unfolding neighbour_json
neighbour_texts [] now_s = []
neighbour_texts (n ∷ ns) now_s =
    let rest = neighbour_texts ns now_s in
    if not n.used
    then rest
    else elim (neighbour_json n now_s 512) [ none ↦ rest | some text ↦ text ∷ rest ]

abbrev pub page_budget : ℕ
page_budget = 1052

-- Whether a text begins a new page, and the bytes used after it.
unfoldable pub turns_page : ℕ → List ℕ → Bool
turns_page used text = leb 1 used && ltb page_budget (used + 1 + length text)

unfoldable pub used_after : ℕ → List ℕ → ℕ
used_after used text = used + (if leb 1 used then 1 else 0) + length text

-- The first pass: the number of pages.
unfoldable pub count_pages : List (List ℕ) → ℕ → ℕ → ℕ
unfolding turns_page used_after
count_pages [] pages used = pages
count_pages (t ∷ ts) pages used =
    if turns_page used t
    then count_pages ts (pages + 1) (used_after 0 t)
    else count_pages ts pages (used_after used t)

-- The head of a page.
unfoldable pub page_head : ℕ → ℕ → List ℕ
page_head page pages =
    codes "{\"page\":"
    ++ (decimal page ++ (codes ",\"pages\":" ++ (decimal pages ++ codes ",\"list\":[")))

-- The second pass, with the page that is being built.
unfoldable pub send_pages : Net → Client → List (List ℕ) → ℕ → ℕ → ℕ → Jbuf → Client
unfolding turns_page used_after page_head jb_add send_session
send_pages net bb [] page pages used j =
    let last = jb_add j (codes "]}") in
    if last.full then bb else send_session net bb bb_t_neighbours last.text
send_pages net bb (t ∷ ts) page pages used j =
    let closed = jb_add j (codes "]}") in
    let opened = jb_add (record closed { text = [] }) (page_head (page + 1) pages) in
    if turns_page used t
    then send_pages net (send_session net bb bb_t_neighbours closed.text) ts (page + 1) pages
        (used_after 0 t) (jb_add opened t)
    else send_pages net bb ts page pages (used_after used t)
        (jb_add j ((if leb 1 used then codes "," else []) ++ t))

unfoldable pub send_neighbours : Net → Client → Client
unfolding neighbour_texts count_pages send_pages
send_neighbours net bb =
    let texts = neighbour_texts bb.mesh.neighbors (net.env.unix % 2 ^ 32) in
    let pages = count_pages texts 1 0 in
    send_pages net bb texts 1 pages 0 (jb_add (empty_jbuf (bb_status_json + 1)) (page_head 1 pages))

-- The text is a parameter: it prints floating-point settings.
unfoldable pub send_status : Net → Client → ℕ → Client
unfolding send_session
send_status net bb now = elim (net.status_text bb now) [
  | none ↦ bb
  | some text ↦ send_session net bb bb_t_status text
]
