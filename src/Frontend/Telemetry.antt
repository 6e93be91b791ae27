-- ===== src/Frontend/Telemetry.antt =====
-- hooks/useTelemetry.ts and components/LiveStream.tsx: the events of the live stream and the chart
-- of their costs.
use io_t_billing_service.Base.{
  ℕ, suc, ◌-◌, Option, none, some, List, [], ◌∷◌, ◌++◌, Text, text, text_eq, ℤ, length, drop,
  if◌then◌else◌, ◌==◌, or_else,
}
use io_t_billing_service.Js.{decimal_ℤ}

pub record TelemetryEvent : Type 0 where
  pub kind : Text
  pub device_id : Text
  pub units : ℤ
  pub cost : ℤ
  pub balance_after : Option ℤ
  pub seq : Option ℤ

pub record Sample : Type 0 where
  pub t : Text
  pub cost : ℤ

-- The event of the hook, with a number that tells one parsed object from another; the number that
-- the effect has run for; and the samples.
pub record LiveStream : Type 0 where
  pub event : Option TelemetryEvent
  pub version : ℕ
  pub seen : ℕ
  pub samples : List Sample

unfoldable pub opened : LiveStream
opened = record { event = none; version = 0; seen = 0; samples = [] }

-- `onmessage`: a frame that JSON.parse refuses (`none`) is ignored.
unfoldable pub on_message : Option TelemetryEvent → LiveStream → LiveStream
on_message none v = v
on_message (some e) v = record v { event = some e; version = suc v.version }

-- `slice(-60)`
unfoldable pub last_60 : {A : Type 0} → List A → List A
last_60 xs = drop (length xs - 60) xs

abbrev pub is_billed : Option TelemetryEvent → Option TelemetryEvent
is_billed none = none
is_billed (some e) = if text_eq e.kind (text "meter_billed") then some e else none

abbrev pub add_sample : Text → Option TelemetryEvent → List Sample → List Sample
add_sample now none samples = samples
add_sample now (some e) samples = last_60 (samples ++ record { t = now; cost = e.cost } ∷ [])

-- A render at the time `now`: the effect runs where the event is another one than before.
unfoldable pub on_render : Text → LiveStream → LiveStream
on_render now v =
    if v.version == v.seen
    then v
    else record v { seen = v.version; samples = add_sample now (is_billed v.event) v.samples }

pub data Happening : Type 0 where
  message : Option TelemetryEvent → Happening
  rendered : Text → Happening

unfoldable pub happen : Happening → LiveStream → LiveStream
happen (message m) v = on_message m v
happen (rendered now) v = on_render now v

unfoldable pub happen_all : List Happening → LiveStream → LiveStream
happen_all [] v = v
happen_all (h ∷ hs) v = happen_all hs (happen h v)

-- `last` of the component: the event that is described above the chart.
unfoldable pub described : LiveStream → Option TelemetryEvent
described v = is_billed v.event

-- `String(n)`, where there may be null.
abbrev pub text_or_null_of : Option ℤ → Text
text_or_null_of none = text "null"
text_or_null_of (some z) = decimal_ℤ z

-- What the paragraph above the chart says.
unfoldable pub announcement : LiveStream → Text
announcement v = elim (described v) [
  | none ↦ text "Waiting for meter_billed events…"
  | some e ↦
      text "Last event: device "
      ++ (e.device_id
          ++ (text " · +"
              ++ (decimal_ℤ e.units
                  ++ (text " units · cost "
                      ++ (decimal_ℤ e.cost ++ (text " · seq " ++ text_or_null_of e.seq))))))
]

-- The WebSocket that the effect opens: the base of its URL, and the parameter "device".
unfoldable pub stream_target : Option Text → Option Text → Option Text → Text × Option Text
stream_target bus_url ws_url device = (
  or_else bus_url (or_else ws_url (text "ws://localhost:8080/stream/telemetry")),
  elim device [ none ↦ none | some d ↦ elim d [ [] ↦ none | c ∷ s ↦ some (c ∷ s) ] ],
)

-- What the component shows: the paragraph, and the samples of which the chart draws `cost` over `t`.
pub record StreamView : Type 0 where
  pub paragraph : Text
  pub data_of_chart : List Sample

unfoldable pub stream_view : LiveStream → StreamView
stream_view v = record { paragraph = announcement v; data_of_chart = v.samples }
