-- ===== src/Mbox.antt =====
-- src/mbox.h and src/mbox.c: the #mbox mailbox, a ring of 32 stored messages.
use meshcore_repeater.Common.{
  ℕ, zero, suc, ◌+◌, ◌-◌, ◌%◌, Bool, true, false, not, ◌||◌, List, [], ◌∷◌, ◌++◌, ◌==◌, leb, ltb,
  if◌then◌else◌, length, take, drop, get_or, set, replicate,
}
use meshcore_repeater.Common.Text.{
  is_empty, copy_str, codes, skip_blanks, skip_space, strcasecmp_eq, strncasecmp_eq,
}

abbrev pub mbox_max : ℕ
mbox_max = 32

abbrev pub mbox_call : ℕ
mbox_call = 24

abbrev pub mbox_msg : ℕ
mbox_msg = 96

-- `mc_mbox_entry_t`; the strings are what their buffers hold.
pub record MboxEntry : Type 0 where
  pub to : List ℕ
  pub from : List ℕ
  pub msg : List ℕ
  pub ts : ℕ

pub record Mbox : Type 0 where
  pub entries : List MboxEntry
  pub head : ℕ
  pub count : ℕ

abbrev pub no_entry : MboxEntry
no_entry = record { to = []; from = []; msg = []; ts = 0 }

-- mbox_init, over the zeroed memory of mesh_init.
unfoldable pub mbox_init : Mbox
mbox_init = record { entries = replicate 32 no_entry; head = 0; count = 0 }

-- The bytes before the first '-'.
unfoldable pub before_dash : List ℕ → List ℕ
before_dash [] = []
before_dash (c ∷ cs) = if c == b'-' then [] else c ∷ before_dash cs

-- base_call into a buffer of `sz` bytes.
unfoldable pub base_call : List ℕ → ℕ → List ℕ
unfolding before_dash
base_call s sz = take (sz - 1) (before_dash s)

-- The bytes up to the first blank, and the rest from that blank on.
unfoldable pub split_word : List ℕ → List ℕ × List ℕ
split_word [] = ([], [])
split_word (c ∷ cs) =
    let (word, rest) = split_word cs in
    if c == b' ' || c == 9 then ([], c ∷ cs) else (c ∷ word, rest)

pub data MboxCmd : Type 0 where
  other : MboxCmd
  mention : List ℕ → List ℕ → MboxCmd
  fetch : MboxCmd

classify_mention : List ℕ → ℕ → MboxCmd
unfolding split_word skip_blanks
classify_mention p msz =
    let (word, after) = split_word p in
    let call = take (msz - 1) word in
    let text = skip_blanks after in
    if is_empty call || is_empty text then other else mention call text

classify_fetch : List ℕ → MboxCmd
unfolding strncasecmp_eq skip_space
classify_fetch body =
    if strncasecmp_eq 5 body (codes "fetch")
    then (if is_empty (skip_space (drop 5 body)) then fetch else other)
    else other

classify_trimmed : List ℕ → ℕ → MboxCmd
unfolding classify_mention classify_fetch
classify_trimmed [] msz = other
classify_trimmed (c ∷ cs) msz =
    if c == b'@' then classify_mention cs msz else classify_fetch (c ∷ cs)

-- "@CALL text" is a mention, "fetch" a fetch, anything else neither.
unfoldable pub mbox_classify : List ℕ → ℕ → MboxCmd
unfolding classify_trimmed
mbox_classify body msz = classify_trimmed (skip_blanks body) msz

unfoldable pub mbox_store : Mbox → List ℕ → List ℕ → List ℕ → ℕ → Mbox
mbox_store mb to from msg ts =
    let e : MboxEntry = record {
      to = copy_str mbox_call to;
      from = copy_str mbox_call from;
      msg = copy_str mbox_msg msg;
      ts = ts;
    } in
    record mb {
      entries = set mb.entries mb.head e;
      head = (mb.head + 1) % mbox_max;
      count = if ltb mb.count mbox_max then mb.count + 1 else mb.count;
    }

-- The state of the loop of mbox_format_fetch.
pub record Format : Type 0 where
  pub matches : ℕ
  pub shown : ℕ
  pub out : List ℕ
  pub full : Bool

-- One round: an entry that does not fit whole closes the output.
unfoldable pub format_entry : List ℕ → ℕ → MboxEntry → Format → Format
unfolding base_call strcasecmp_eq
format_entry want outsz e st =
    if not (strcasecmp_eq (base_call e.to mbox_call) want)
    then st
    else if st.full
    then record st { matches = st.matches + 1 }
    else let room = if ltb (length st.out) outsz then outsz - length st.out else 0 in
      let text =
        (if is_empty st.out then [] else codes " | ")
        ++ (codes "[" ++ (e.from ++ (codes "] " ++ e.msg))) in
      if leb room (length text)
      then record st { matches = st.matches + 1; full = true }
      else record st { matches = st.matches + 1; shown = st.shown + 1; out = st.out ++ text }

-- The rounds k, k + 1, … with `left` of them to go.
unfoldable pub format_loop : Mbox → List ℕ → ℕ → ℕ → ℕ → ℕ → Format → Format
format_loop mb want outsz oldest zero k st = st
format_loop mb want outsz oldest (suc left) k st =
    format_loop mb want outsz oldest left (k + 1)
      (format_entry want outsz (get_or mb.entries ((oldest + k) % mbox_max) no_entry) st)

-- `matches` is what goes to `*total`, `shown` the result, `out` the text.
unfoldable pub mbox_format_fetch : Mbox → List ℕ → ℕ → Format
unfolding base_call
mbox_format_fetch mb call outsz =
    format_loop mb (base_call call mbox_call) outsz ((mb.head + mbox_max - mb.count) % mbox_max)
      mb.count 0 (record { matches = 0; shown = 0; out = []; full = false })

unfoldable pub mbox_help_text : List ℕ
mbox_help_text =
    codes "mbox: leave a message with '@CALL text' (also flooded); send 'fetch' for yours"
