-- ===== src/Mesh/Mailbox.antt =====
-- src/mesh.c: the #mbox service: replies along the reversed path, the rate limit, the commands.
pub mod Gates
pub mod Rate
use meshcore_repeater.Common.{
  ℕ, zero, suc, ◌+◌, ◌-◌, ◌*◌, ◌%◌, ◌^◌, Bool, true, false, not, ◌&&◌, List, [], ◌∷◌, ◌++◌, Option,
  none, some, ◌==◌, ltb, leb, if◌then◌else◌, take, drop, get_or, set, write_at, ok, err,
}
use meshcore_repeater.Common.Text.{is_empty, codes, copy_str, decimal, strcasecmp_eq}
use meshcore_repeater.Config.{Channel}
use meshcore_repeater.Mbox.{
  other, mention, fetch, base_call, mbox_call, mbox_classify, mbox_store, mbox_format_fetch,
  mbox_help_text,
}
use meshcore_repeater.Packet.{Packet, route_direct, path_hash_count, path_hash_size, max_path_size}
use meshcore_repeater.Mesh.State.{Mesh, Env, Gate, free_gate}
use meshcore_repeater.Mesh.Random.{reply_delay_ms}
use meshcore_repeater.Mesh.Channel.{channel_build_txt}
use meshcore_repeater.Mesh.Originate.{originate}

-- The hops of a path of `hs`-byte hashes in reverse order: `left` hops, the last one first.
unfoldable pub reverse_hops : List ℕ → ℕ → ℕ → List ℕ
reverse_hops path hs zero = []
reverse_hops path hs (suc left) = take hs (drop (left * hs) path) ++ reverse_hops path hs left

-- The reply's path is the command's, reversed.
unfoldable pub reverse_path : Packet → Packet → Packet
unfolding reverse_hops path_hash_count path_hash_size
reverse_path rx p =
    let n = path_hash_count rx in
    let hs = path_hash_size rx in
    if ltb 0 n && leb (n * hs) max_path_size
    then record p {
      path = write_at 0 (reverse_hops rx.path hs n) p.path;
      path_len = (hs - 1) % 4 * 2 ^ 6 + n % 64;
    }
    else p

unfoldable pub send_routed_reply : Env → Mesh → Packet → Channel → List ℕ → Mesh × Bool
unfolding reverse_path
send_routed_reply env m rx ch text =
    elim (channel_build_txt env.crypto ch m.cfg.name text (env.unix % 2 ^ 32) route_direct) [
      | err code ↦ (m, false)
      | ok p ↦ originate env reply_delay_ms 1 m (reverse_path rx p)
    ]

abbrev pub mbox_reply_cooldown_ms : ℕ
mbox_reply_cooldown_ms = 8000

-- What the scan of the gates found: the caller's slot, or the slot to take for it.
pub data GateFound : Type 0 where
  own : ℕ → GateFound
  take_slot : ℕ → GateFound

-- From gate `k` on, with the first free slot and the stalest one so far.
unfoldable pub scan_gates : List Gate → List Gate → List ℕ → ℕ → Option ℕ → ℕ → GateFound
scan_gates all [] base k free oldest = take_slot (elim free [ none ↦ oldest | some j ↦ j ])
scan_gates all (g ∷ gs) base k free oldest =
    let empty_slot =
      scan_gates all gs base (k + 1) (elim free [ none ↦ some k | some j ↦ some j ]) oldest in
    let later =
      scan_gates all gs base (k + 1) free
        (if ltb g.next_ms (get_or all oldest free_gate).next_ms then k else oldest) in
    if is_empty g.call then empty_slot else if strcasecmp_eq g.call base then own k else later

-- Whether the sender may have a reply now; a gate is then set.
unfoldable pub mbox_rate_ok : Mesh → List ℕ → ℕ → Mesh × Bool
mbox_rate_ok m sender now =
    let base = base_call sender mbox_call in
    if is_empty base then (m, false) else elim (scan_gates m.mbox_gate m.mbox_gate base 0 none 0) [
      | own k ↦
          let g = get_or m.mbox_gate k free_gate in
          if ltb now g.next_ms then (m, false) else (
            record m {
              mbox_gate = set m.mbox_gate k (record g { next_ms = now + mbox_reply_cooldown_ms });
            },
            true,
          )
      | take_slot k ↦ (
        record m {
          mbox_gate =
              set m.mbox_gate k (record { call = base; next_ms = now + mbox_reply_cooldown_ms });
        },
        true,
      )
    ]

-- The text of a fetch reply, in its 160-byte buffer.
fetch_reply : Mesh → List ℕ → List ℕ
fetch_reply m sender =
    let f = mbox_format_fetch m.mbox sender 110 in
    copy_str 160 (
      if f.matches == 0
      then codes "mbox: no messages for you"
      else if f.shown == 0
      then codes "mbox: " ++ (decimal f.matches ++ codes " msg(s) for you, too long to show here")
      else if ltb f.shown f.matches
      then codes "mbox "
        ++ (decimal f.shown ++ (codes "/" ++ (decimal f.matches ++ (codes ": " ++ f.out))))
      else codes "mbox " ++ (decimal f.matches ++ (codes ": " ++ f.out)))

-- The rate-limited reply to a command.
mbox_answer : Env → Mesh → Packet → Channel → List ℕ → (Mesh → List ℕ) → Mesh
mbox_answer env m p ch sender text =
    let (m1, allowed) = mbox_rate_ok m sender env.millis in
    let (m2, sent) = send_routed_reply env m1 p ch (text m1) in
    if not allowed
    then m
    else if sent
    then record m2 { stats = record (m2.stats) { mbox_replies = m2.stats.mbox_replies + 1 } }
    else m2

-- Whether the message still floods: a mention does, a command does not.
unfoldable pub mbox_handle : Env → Mesh → Packet → Channel → List ℕ → List ℕ → Mesh × Bool
unfolding fetch_reply mbox_answer
mbox_handle env m p ch sender body = elim (mbox_classify body mbox_call) [
  | mention who msg ↦ (
    record m {
      mbox = mbox_store m.mbox who sender msg (env.unix % 2 ^ 32);
      stats = record (m.stats) { mbox_stored = m.stats.mbox_stored + 1 };
    },
    true,
  )
  | fetch ↦ (mbox_answer env m p ch sender (λ m1. fetch_reply m1 sender), false)
  | other ↦ (mbox_answer env m p ch sender (λ m1. copy_str 160 mbox_help_text), false)
]
