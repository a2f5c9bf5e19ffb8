-- ===== src/Rpc/Action.antt =====
-- Calls that change a state and may raise: what they wrote before an exception stays written.
use dpapi_ng.Base.{Error, Result, ok, err}

abbrev pub Action : Type 0 → Type 0 → Type 0
Action St Value = St → St × Result Value

abbrev pub after :
    {St Value Next : Type 0} → (Value → Action St Next) → St × Result Value → St × Result Next
after next (s, err raised) = (s, err raised)
after next (s, ok value) = next value s

infixl 5 ◌>>=◌
abbrev pub ◌>>=◌ :
    {St Value Next : Type 0} → Action St Value → (Value → Action St Next) → Action St Next
m >>= next = λ s. after next (m s)

-- A value, and a call that leaves the state alone
abbrev pub done : {St Value : Type 0} → Value → Action St Value
done value s = (s, ok value)

abbrev pub lift : {St Value : Type 0} → Result Value → Action St Value
lift result s = (s, result)

abbrev pub raise : {St Value : Type 0} → Error → Action St Value
raise raised s = (s, err raised)
