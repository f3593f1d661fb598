-- ===== src/Cc/Trigger.antt =====
-- src/cc/cc_trigger.rs, `CCTrigger`: a function in C computes the window on another thread. The
-- function is the parameter `solution`; the pool is the list of its unfinished jobs, the channel the
-- list of what jobs sent, and the time of an event a parameter.
pub mod Jobs
use dtp.Base.{
  ℕ, ◌+◌, ◌-◌, ◌%◌, ◌^◌, Bool, true, false, List, [], ◌∷◌, ◌++◌, ◌==◌, if◌then◌else◌, length,
}
use dtp.Base.Words.{sub64}
use dtp.Cc.{minimum_window}

pub record CcInfo : Type 0 where
  pub event_type : ℕ
  pub event_time : ℕ
  pub rtt : ℕ
  pub bytes_in_flight : ℕ
  pub packet_id : ℕ

-- The arguments of a call of `cc_trigger_async`.
pub record Job : Type 0 where
  pub infos : List CcInfo
  pub cwnd : ℕ
  pub rate : ℕ

-- `started` says that `cwnd_rx` and `cwnd_tx` are there. (`congestion_recovery_start_time` is always
-- none.)
pub record CcTrigger : Type 0 where
  pub congestion_window : ℕ
  pub pacing_rate : ℕ
  pub bytes_in_flight : ℕ
  pub cc_infos : List CcInfo
  pub started : Bool
  pub jobs : List Job
  pub channel : List (ℕ × ℕ)

abbrev pub cc_trigger_new : ℕ → ℕ → CcTrigger
cc_trigger_new init_cwnd init_pacing_rate = record {
  congestion_window = init_cwnd;
  pacing_rate = init_pacing_rate;
  bytes_in_flight = 0;
  cc_infos = [];
  started = false;
  jobs = [];
  channel = [];
}

abbrev pub collapse_cwnd : CcTrigger → CcTrigger
collapse_cwnd t = record t { congestion_window = minimum_window }

abbrev pub decrease_bytes_in_flight : ℕ → CcTrigger → CcTrigger
decrease_bytes_in_flight bytes t = record t { bytes_in_flight = t.bytes_in_flight - bytes }

abbrev pub on_packet_sent_cc : ℕ → CcTrigger → CcTrigger
on_packet_sent_cc bytes_sent t = record t {
  bytes_in_flight = (t.bytes_in_flight + bytes_sent) % 2 ^ 64;
}

-- The pool gets a job with all events that wait.
abbrev pub spawn : CcTrigger → CcTrigger
spawn t =
    let job : Job = record {
      infos = t.cc_infos;
      cwnd = t.congestion_window;
      rate = t.pacing_rate;
    } in
    record t { jobs = t.jobs ++ (job ∷ []); cc_infos = [] }

-- `cc_trigger` up to the channel.
unfoldable pub request : CcInfo → CcTrigger → CcTrigger
request info t =
    let pushed = record t { cc_infos = t.cc_infos ++ (info ∷ []) } in
    if t.started then pushed else record (spawn pushed) { started = true }

-- With the window and the rate that were received.
abbrev pub respawn : CcTrigger → CcTrigger
respawn t = if length t.cc_infos == 0 then t else spawn t

abbrev pub with_received : List (ℕ × ℕ) → CcTrigger → CcTrigger
with_received [] t = t
with_received ((cwnd, rate) ∷ rest) t =
    respawn (record t { congestion_window = cwnd; pacing_rate = rate; channel = rest })

-- `try_recv` and what follows.
unfoldable pub receive : CcTrigger → CcTrigger
receive t = with_received t.channel t

-- `cc_trigger`, where no job ends in between.
unfoldable pub cc_trigger : CcInfo → CcTrigger → CcTrigger
unfolding request receive
cc_trigger info t = receive (request info t)

abbrev pub event : ℕ → ℕ → ℕ → ℕ → CcTrigger → CcInfo
event event_type event_time rtt packet_id t = record {
  event_type = event_type;
  event_time = event_time;
  rtt = rtt;
  bytes_in_flight = t.bytes_in_flight;
  packet_id = packet_id;
}

-- `'F'` and `'D'`
unfoldable pub on_packet_acked_cc : ℕ → ℕ → ℕ → ℕ → CcTrigger → CcTrigger
unfolding cc_trigger
on_packet_acked_cc event_time srtt pkt_num size t =
    let less = record t { bytes_in_flight = sub64 t.bytes_in_flight size } in
    cc_trigger (event 0x46 event_time srtt pkt_num less) less

unfoldable pub congestion_event : ℕ → ℕ → ℕ → CcTrigger → CcTrigger
unfolding cc_trigger
congestion_event event_time srtt packet_id t = cc_trigger (event 0x44 event_time srtt packet_id t) t

-- A job ends: it sends what the function made of the window and the rate.
abbrev pub finish : (List CcInfo → ℕ → ℕ → ℕ × ℕ) → List Job → CcTrigger → CcTrigger
finish solution [] t = t
finish solution (j ∷ js) t = record t {
  jobs = js;
  channel = t.channel ++ (solution j.infos j.cwnd j.rate ∷ []);
}

unfoldable pub cc_trigger_async : (List CcInfo → ℕ → ℕ → ℕ × ℕ) → CcTrigger → CcTrigger
cc_trigger_async solution t = finish solution t.jobs t
