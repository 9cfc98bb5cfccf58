-- ===== src/ImeState.antt =====
-- src/ime_state.h: the states of the input method.
pub data ImeState : Type 0 where
  bypass idle input composing predict app_completion : ImeState

pub ImeState-discrete : Discrete ImeState
ImeState-discrete = hlevel
