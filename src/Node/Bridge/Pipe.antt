-- ===== src/Node/Bridge/Pipe.antt =====
-- What a bridge promises in each direction: a pipe that delivers what it accepts, in order and whole.
use rtc_bridge.Prelude.{Bytes, List, Star, Star-keeps, [], append_assoc, sym, ◌++◌, ◌∙◌, ◌∷◌, ◌≡◌}

pub record Pipe : Type 0 where
  pub accepted : List Bytes
  pub delivered : List Bytes

abbrev pub empty : List Bytes → Pipe
empty waiting = record { accepted = waiting; delivered = [] }

-- A pipe accepts anything at any time, and delivers the first item that it has accepted and not yet
-- delivered.
pub data Step (p : Pipe) (q : Pipe) : Type 0 where
  accepts : (d : Bytes) → q ≡ record p { accepted = p.accepted ++ d ∷ [] } → Step p q
  delivers :
      (d : Bytes) (rest : List Bytes)
      → p.accepted ≡ p.delivered ++ d ∷ rest
      → q ≡ record p { delivered = p.delivered ++ d ∷ [] }
      → Step p q

abbrev pub Reach : Pipe → Pipe → Type 0
Reach = Star Step

abbrev pub IsPrefix : Pipe → Type 0
IsPrefix p = (rest : List Bytes) × (p.accepted ≡ p.delivered ++ rest)

Step-IsPrefix : (p q : Pipe) → Step p q → IsPrefix p → IsPrefix q
Step-IsPrefix p q (accepts d e) (rest, h) =
    (rest ++ d ∷ [], rw e (rw h (append_assoc p.delivered rest (d ∷ []))))
Step-IsPrefix p q (delivers d rest h e) before =
    (rest, rw e (h ∙ sym (append_assoc p.delivered (d ∷ []) rest)))

-- What a pipe has delivered is the beginning of what it has accepted.
pub Reach-IsPrefix : {p q : Pipe} → Reach p q → IsPrefix p → IsPrefix q
Reach-IsPrefix = Star-keeps IsPrefix Step-IsPrefix
