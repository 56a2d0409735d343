-- ===== src/TlsAead/Connection/Pending.antt =====
-- The updates in flight and the update that the client waits for.
use mls_tls_protocol.Base.{
  ◌≡◌, refl, sym, ap, ◌∙◌, List, [], ◌∷◌, ◌++◌, Option, none, some, append-nil,
}
use mls_tls_protocol.Base.Bytes.{Octets}
use mls_tls_protocol.TlsAead.Secrets.{TrafficSecrets}
use mls_tls_protocol.TlsAead.Connection.{Label, plain, rekey, Item}

abbrev pub with_label : Label → List TrafficSecrets → List TrafficSecrets
with_label plain xs = xs
with_label (rekey x) xs = x ∷ xs

-- The updates among some records, and the one that is pending.
abbrev pub rekeys : List Item → List TrafficSecrets
rekeys [] = []
rekeys (i ∷ items) = with_label i.label (rekeys items)

abbrev pub pending_list : Option TrafficSecrets → List TrafficSecrets
pending_list none = []
pending_list (some x) = x ∷ []

with_label-append :
    (l : Label) (xs ys : List TrafficSecrets) → with_label l (xs ++ ys) ≡ with_label l xs ++ ys
with_label-append plain xs ys = refl
with_label-append (rekey x) xs ys = refl

pub rekeys-append : (is js : List Item) → rekeys (is ++ js) ≡ rekeys is ++ rekeys js
rekeys-append [] js = refl
rekeys-append (i ∷ is) js =
    ap (with_label i.label) (rekeys-append is js) ∙ with_label-append i.label _ _

pub append-eq-nil : (xs ys : List TrafficSecrets) → xs ++ ys ≡ [] → (xs ≡ []) × (ys ≡ [])
append-eq-nil [] ys h = (refl, h)
append-eq-nil (x ∷ xs) ys h = cc

-- The only update goes from the front of one queue to the end of the other.
pub moves :
    (x : TrafficSecrets) (xs ys : List TrafficSecrets) (o : Option TrafficSecrets)
    → x ∷ (xs ++ ys) ≡ pending_list o
    → xs ++ (ys ++ (x ∷ [])) ≡ pending_list o
moves x [] [] o h = h
moves x (a ∷ xs) ys none h = cc
moves x (a ∷ xs) ys (some y) h = cc
moves x [] (b ∷ ys) none h = cc
moves x [] (b ∷ ys) (some y) h = cc

pub only :
    (x y : TrafficSecrets) (xs ys : List TrafficSecrets)
    → xs ++ (x ∷ ys) ≡ y ∷ []
    → (xs ≡ []) × (x ≡ y) × (ys ≡ [])
only x y [] ys h = (refl, cc, cc)
only x y (a ∷ []) ys h = cc
only x y (a ∷ b ∷ xs) ys h = cc

pub pending_list-eq-nil : (o : Option TrafficSecrets) → [] ≡ pending_list o → o ≡ none
pending_list-eq-nil none h = refl
pending_list-eq-nil (some x) h = cc

pub rekeys-append_plain :
    (is : List Item) (frame chunk : Octets)
    → rekeys (is ++ (record { frame = frame; chunk = chunk; label = plain } ∷ [])) ≡ rekeys is
rekeys-append_plain is frame chunk = rekeys-append is _ ∙ append-nil (rekeys is)

pub pending_one :
    (x : TrafficSecrets) (xs ys : List TrafficSecrets) (o : Option TrafficSecrets)
    → xs ++ (x ∷ ys) ≡ pending_list o
    → o ≡ some x
pending_one x [] ys none h = cc
pending_one x (a ∷ xs) ys none h = cc
pending_one x xs ys (some y) h = let (e, same, f) = only x y xs ys h in ap some (sym same)
