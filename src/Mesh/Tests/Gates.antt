-- ===== src/Mesh/Tests/Gates.antt =====
-- src/mesh.c: a concrete run of the rate limit.
use meshcore_repeater.Common.{◌≡◌, ◌+◌, refl, true, not, ltb, arith, [], ◌∷◌, inl}
use meshcore_repeater.Common.Text.{codes}
use meshcore_repeater.Mbox.{base_call, mbox_call}
use meshcore_repeater.Mesh.Mailbox.{mbox_rate_ok, scan_gates, mbox_reply_cooldown_ms}
use meshcore_repeater.Mesh.Mailbox.Rate.{asked, mbox_rate_ok_cooldown}
use meshcore_repeater.Mesh.Samples.{sample_node}

granted : (mbox_rate_ok sample_node (codes "YO6ABC-7") 5000).1 ≡ true
unfolding mbox_rate_ok scan_gates base_call
granted = refl

same_call : base_call (codes "YO6ABC-9") mbox_call ≡ base_call (codes "YO6ABC-7") mbox_call
unfolding base_call
same_call = refl

-- mbox_rate_ok_cooldown, for an operator who asks again after three seconds, and after nine.
mbox_rate_ok_cooldown_example :
    (mbox_rate_ok
      (asked (mbox_rate_ok sample_node (codes "YO6ABC-7") 5000).0 ((codes "YO6ABC-9", 8000) ∷ []))
      (codes "YO6ABC-9")
      14000).1
    ≡ not (ltb 14000 (5000 + mbox_reply_cooldown_ms))
mbox_rate_ok_cooldown_example =
    mbox_rate_ok_cooldown sample_node (codes "YO6ABC-7") (codes "YO6ABC-9") 5000 14000
      ((codes "YO6ABC-9", 8000) ∷ []) (omega arith) granted (inl (same_call, omega arith), tt)
      same_call
