-- ===== src/Worker/Sqs/Start.antt =====
-- What the worker of examples/kafka-sqs-consumer reads of the environment.
use ankusa.Prelude.{Option, String, Text, Result, ok, ◌>>=◌}
use ankusa.Starting.{Env, setting}
use ankusa.Worker.Sqs.Main.{required_variable}

pub record Settings : Type 0 where
  pub queue_url : Text
  pub dlq_url : Text
  pub claim_check_url : Text
  pub region : Text
  pub endpoint : Option Text

-- The error that ends the worker has the name of the variable that is missing.
abbrev pub required : Env → String → Result String Text
required env name = required_variable name (env name)

unfoldable pub settings : Env → Result String Settings
settings env = do
  queue_url ← required env "SQS_QUEUE_URL"
  dlq_url ← required env "SQS_DLQ_URL"
  ok (record {
    queue_url = queue_url;
    dlq_url = dlq_url;
    claim_check_url = setting env "CLAIM_CHECK_URL" "http://localhost:4001";
    region = setting env "AWS_REGION" "us-east-1";
    endpoint = env "SQS_ENDPOINT";
  })
