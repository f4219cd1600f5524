-- ===== src/Agents/Reply.antt =====
-- The answer of handleAgentPoll after its transaction: the selected job is written out, or its
-- dispatch fails. The text of an error is a parameter. The intervals of the answer are left out.
use nginx_atlas.Agents.Complete.{fail_dispatch}
use nginx_atlas.Effects.{Env, Error, World, err, ok}
use nginx_atlas.Model.{Job}
use nginx_atlas.Prelude.{Option, Text, none, some}
use nginx_atlas.SecureBox.{Box}
use nginx_atlas.Wire.{Coding, WireJob, build_wire_job}

pub data PollReply : Type 0 where
  answers : Option WireJob → PollReply
  dispatch_error : PollReply

module _ (box : Box) (env : Env) (coding : Coding) (message : Error → Text) where
  -- The state is that of the snapshot, which failDispatch changes if it is called.
  unfoldable pub answer_poll : Option Job → World → World × PollReply
  answer_poll none w = (w, answers none)
  answer_poll (some job) w = elim (build_wire_job box env coding job w.state) [
    | ok wire ↦ (w, answers (some wire))
    | err reason ↦ (fail_dispatch env job (message reason) w, dispatch_error)
  ]
