-- ===== src/Protocol/Commands.antt =====
-- crates/sismatic-core/src/protocol/instructions/commands.rs: the catalog of the commands.
use sismatic.Common.{String, List, [], ◌∷◌, Option, find_first}
use sismatic.Protocol.Names.{spelled}

pub data Command : Type 0 where
  start stop pause : Command

-- `Command::ALL`.
abbrev pub all_command : List Command
all_command = Command.start ∷ Command.stop ∷ Command.pause ∷ []

unfoldable pub command_name : Command → String
command_name Command.start = "STARTRECORDING"
command_name Command.stop = "STOPRECORDING"
command_name Command.pause = "PAUSERECORDING"

-- The canonical name and the aliases.
unfoldable pub command_accepted : Command → List String
command_accepted Command.start = "STARTRECORDING" ∷ "START" ∷ []
command_accepted Command.stop = "STOPRECORDING" ∷ "STOP" ∷ []
command_accepted Command.pause = "PAUSERECORDING" ∷ "PAUSE" ∷ []

-- `Command::from_str`.
unfoldable pub command_from_str : String → Option Command
unfolding spelled find_first
command_from_str s = spelled command_accepted s all_command
