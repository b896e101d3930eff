-- ===== src/EventLoop/Text.antt =====
-- examples/socket/event_loop.cc: `events_string`, the text that the log shows for the events of a
-- descriptor.
use Prim.Native.String.{◌++◌ as ◌⊕◌}
use text.Mathlib.TextLemmas.{append-nil, append_assoc, nil-append}
use ucxpp.Base.{◌≡◌, refl, ap, ◌∙◌, List, [], ◌∷◌, ◌++◌, String, Bool, true, false, if◌then◌else◌}

-- What the five tests of the mask give.
pub record Flags : Type 0 where
  pub epollin : Bool
  pub epollpri : Bool
  pub epollout : Bool
  pub epollerr : Bool
  pub epollhup : Bool

-- The parts, in the order of the tests.
unfoldable pub parts : Flags → List String
parts flags =
    (if flags.epollin then "EPOLLIN" ∷ [] else [])
    ++ (if flags.epollpri then "EPOLLPRI" ∷ [] else [])
    ++ (if flags.epollout then "EPOLLOUT" ∷ [] else [])
    ++ (if flags.epollerr then "EPOLLERR" ∷ [] else [])
    ++ (if flags.epollhup then "EPOLLHUP" ∷ [] else [])

-- The loop over the parts.
unfoldable pub append_parts : (str : String) → (first : Bool) → List String → String
append_parts str first [] = str
append_parts str first (part ∷ ps) =
    append_parts ((if first then str else str ⊕ " | ") ⊕ part) false ps

unfoldable pub events_string : Flags → String
unfolding parts append_parts
events_string flags = append_parts "" true (parts flags)

-- Parts with a separator before each of them.
abbrev tail_parts : List String → String
tail_parts [] = ""
tail_parts (part ∷ ps) = " | " ⊕ (part ⊕ tail_parts ps)

-- Parts with a separator between them.
abbrev separated : List String → String
separated [] = ""
separated (part ∷ ps) = part ⊕ tail_parts ps

append_parts-tail :
    (str : String) (ps : List String) → append_parts str false ps ≡ str ⊕ tail_parts ps
unfolding append_parts
append_parts-tail str [] = cc (append-nil str)
append_parts-tail str (part ∷ ps) =
    append_parts-tail ((str ⊕ " | ") ⊕ part) ps
    ∙ append_assoc (str ⊕ " | ") part (tail_parts ps)
    ∙ append_assoc str " | " (part ⊕ tail_parts ps)

-- The text has a separator between any two parts, and nowhere else.
pub events_string-separated : (flags : Flags) → events_string flags ≡ separated (parts flags)
unfolding events_string
events_string-separated flags = from (parts flags)
  where
    from : (ps : List String) → append_parts "" true ps ≡ separated ps
    from [] = refl
    from (part ∷ ps) =
        append_parts-tail ("" ⊕ part) ps ∙ ap (λ s. s ⊕ tail_parts ps) (nil-append part)
