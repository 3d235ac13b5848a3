-- ===== src/Sla/Pauses/Frame.antt =====
-- What the end of a pause leaves alone (backend/src/yitu/sla/service.py).
use Prim.Native.String.{String}
use yitu.Base.{ℕ, ◌≡◌, some, Option, arith, Option-cases, inl, inr}
use yitu.Platform.Json.{Key}
use yitu.Sla.Pauses.{finish_pause, end_pause, resume_for_source, get_instance, find_open_pause}
use yitu.Store.Cases.{SlaPause}
use yitu.Store.Queries.{find_instance}
use yitu.Store.Rows.{SlaInstance}
use yitu.Store.Session.{Session}

-- Only the stages and their pauses change.
abbrev pub PausesOnly : Session → Session → Type 0
PausesOnly s t = t ≡ record s { sla_instances = t.sla_instances; pauses = t.pauses }

pub finish_pause-PausesOnly :
    (row : SlaInstance) (p : SlaPause) (key : Option Key) (s : Session)
    → PausesOnly s (finish_pause row p key s).1
unfolding finish_pause
finish_pause-PausesOnly row p key s = ground arith

end_pause-PausesOnly :
    (row : SlaInstance) (p : SlaPause) (key : Key) (s : Session)
    → PausesOnly s (end_pause row p key s).1
unfolding end_pause
end_pause-PausesOnly row p key s = ground (arith, finish_pause-PausesOnly row p (some key) s)

pub resume_for_source-PausesOnly :
    (k : ℕ) (source : String) (i : ℕ) (key : Key) (s : Session)
    → PausesOnly s (resume_for_source k source i key s).1
unfolding resume_for_source get_instance
resume_for_source-PausesOnly k source i key s =
    elim (Option-cases (find_instance k s.sla_instances)) [
      | inl f ↦ ground arith
      | inr (row, f) ↦ elim (Option-cases (find_open_pause row.sla_id source i s.pauses)) [
        | inl g ↦ ground arith
        | inr (p, g) ↦ ground (arith, end_pause-PausesOnly row p key s)
      ]
    ]
